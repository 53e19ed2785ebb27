-- ===== src/Tray/Settings/Messages/Kept.antt =====
-- What the messages of the settings dialog keep: the configuration file and the state of the
-- controls.
use omni_sshagent.Base.{
  Bool, true, false, List, [], ◌∷◌, Option, none, some, ok, not, ◌≡◌, inl, inr, refl, arith,
  Bool-cases, if◌then◌else◌,
}
use omni_sshagent.Base.Text.{Text}
use omni_sshagent.Files.{OsError, FileSystem, IsLawful, content}
use omni_sshagent.Config.{Config, RuntimeConfig, Platform, validate}
use omni_sshagent.Config.File.{Codec, IsInverse, load, create_default}
use omni_sshagent.Config.File.Write.{IsTarget}
use omni_sshagent.Config.File.Toggle.{load-same, create_default_creates}
use omni_sshagent.Tray.Settings.{Values, apply, Applied, apply-Applied}
use omni_sshagent.Tray.Settings.Controls.{Controls, is_embedded, update_backend_controls, values}
use omni_sshagent.Tray.Settings.Messages.{
  Paths, picked, browse_socket, Event, ok_clicked, apply_clicked, cancelled, wm_close, wm_destroy,
  browse_clicked, backend_selected, edited, Dialog, apply_values, window_proc, handle, run,
}

-- The edits of the OpenSSH backend are enabled, and the note is hidden, just if it is selected.
abbrev pub Agrees : Controls → Type 0
Agrees c =
    (c.edits_enabled ≡ not (is_embedded c.backend_type)) × (c.has_note ≡ is_embedded c.backend_type)

picked-Agrees : (c : Controls) (file : Option Text) → Agrees c → Agrees (picked c file)
picked-Agrees c none h = h
picked-Agrees c (some file) h = h

module _ (fs : FileSystem) (laws : IsLawful fs) (codec : Codec) (inverse : IsInverse codec)
    (path : Text) (target : IsTarget fs path) (platform : Platform) (paths : Paths)
    (user_profile : Text) where
  open fs use {World}

  -- The file holds a configuration that `Validate` accepts.
  abbrev pub IsAccepted : World → Type 0
  IsAccepted w =
      (cfg : Config) × (r : RuntimeConfig) × (load fs codec path w ≡ ok cfg)
      × (validate platform cfg path [] user_profile ≡ ok r)

  -- `CreateDefault` leaves a file that can be loaded.
  create_default-loaded :
      (w : World) {cfg : Config}
      → load fs codec path w ≡ ok cfg
      → (create_default fs codec path w).0 ≡ w
  unfolding load content
  create_default-loaded w h = elim (create_default_creates fs laws codec inverse path target w) [
    | inl p ↦ p.1
    | inr p ↦ ground (arith, h, laws.stat-content path w p.0)
  ]

  Applied-IsAccepted :
      (v : Values) (e : Option OsError) (w : World) (s : World × Bool)
      → IsAccepted w
      → Applied fs laws codec inverse path target platform user_profile v e w s
      → IsAccepted s.0
  Applied-IsAccepted v e w (w', true) a (no_error, (cfg, new, r, l, merged, accepted, stored)) =
      (new, r, stored, accepted)
  Applied-IsAccepted v e w (w', false) (cfg, r, l, accepted) (inl same) =
      (cfg, r, load-same fs codec path w' w same l, accepted)
  Applied-IsAccepted v e w (w', false) a (inr (cfg, new, r, l, merged, accepted, stored)) =
      (new, r, stored, accepted)

  apply-IsAccepted :
      (v : Values) (e : Option OsError) (w : World)
      → IsAccepted w
      → IsAccepted (apply fs codec path platform user_profile v e w).0
  apply-IsAccepted v e w (cfg, r, l, accepted) =
      let w' : World = (create_default fs codec path w).0 in
      let kept : IsAccepted w' = rw (create_default-loaded w l) (cfg, r, l, accepted) in
      Applied-IsAccepted v e w' (apply fs codec path platform user_profile v e w) kept
        (apply-Applied fs laws codec inverse path target platform user_profile v e w)

  abbrev pub IsKept : Dialog fs codec path platform paths user_profile → Type 0
  IsKept d = IsAccepted d.world × Agrees d.controls

  apply_values-IsKept :
      (e : Option OsError) (stay : Bool) (d : Dialog fs codec path platform paths user_profile)
      → IsKept d
      → IsKept (apply_values fs codec path platform paths user_profile e stay d)
  unfolding apply_values
  apply_values-IsKept e stay d k =
      let w = apply-IsAccepted (values d.controls) e d.world k.0 in
      elim (Bool-cases
        (apply fs codec path platform user_profile (values d.controls) e d.world).1) [
          | inl h ↦ rw h (w, k.1)
          | inr h ↦ rw h (w, k.1)
        ]

  window_proc-IsKept :
      (e : Event) (d : Dialog fs codec path platform paths user_profile)
      → IsKept d
      → IsKept (window_proc fs codec path platform paths user_profile e d)
  unfolding window_proc browse_socket update_backend_controls
  window_proc-IsKept (ok_clicked e) d k = apply_values-IsKept e false d k
  window_proc-IsKept (apply_clicked e) d k = apply_values-IsKept e true d k
  window_proc-IsKept cancelled d k = k
  window_proc-IsKept wm_close d k = k
  window_proc-IsKept wm_destroy d k = k
  window_proc-IsKept (browse_clicked pick) d k = (k.0, picked-Agrees d.controls _ k.1)
  window_proc-IsKept (backend_selected i) d k = (k.0, (refl, refl))
  window_proc-IsKept (edited new) d k = (k.0, k.1)

  either-IsKept :
      (b : Bool) (d d' : Dialog fs codec path platform paths user_profile)
      → IsKept d
      → IsKept d'
      → IsKept (if b then d else d')
  either-IsKept true d d' k k' = k
  either-IsKept false d d' k k' = k'

  handle-IsKept :
      (e : Event) (d : Dialog fs codec path platform paths user_profile)
      → IsKept d
      → IsKept (handle fs codec path platform paths user_profile e d)
  unfolding handle
  handle-IsKept e d k = either-IsKept d.is_open _ d (window_proc-IsKept e d k) k

  -- Whatever the user enters and clicks, and whatever `apply` runs into: a configuration file that
  -- `Validate` accepts stays one that it accepts, and the edits of the OpenSSH backend stay enabled,
  -- and the note hidden, just while that backend is selected.
  pub run-IsKept :
      (es : List Event) (d : Dialog fs codec path platform paths user_profile)
      → IsKept d
      → IsKept (run fs codec path platform paths user_profile es d)
  unfolding run
  run-IsKept [] d k = k
  run-IsKept (e ∷ es) d k =
      run-IsKept es (handle fs codec path platform paths user_profile e d) (handle-IsKept e d k)
