-- ===== src/Tray/Run/Released.antt =====
-- What `Run` of internal/tray/tray_windows.go gives back of what `initialize` has made.
use omni_sshagent.Base.{
  ℕ, Bool, true, false, List, [], ◌∷◌, ◌++◌, map, Option, none, some, ◌==◌, ◌≡◌, ◌⊎◌, inl, inr,
  refl, ap, ◌∙◌, arith, All,
}
use mathlib.Core.List.{append-nil}
use omni_sshagent.Tray.Machine.{Tray, Call, fatal_shown, add_icon, close}
use omni_sshagent.Tray.Machine.Runs.{Event, close_twice}
use omni_sshagent.Tray.Machine.Runs
use omni_sshagent.Tray.Machine.Handles.{
  window, icon, menu, destroyed_by, has_quit, IsArriving, Keeps, Keeps-append, add_icon-Keeps,
  run-Keeps, destroyed_by-append, has_quit-append, close-destroys,
}
use omni_sshagent.Tray.Run.{
  Act, called, RunError, Startup, Started, LoopEnd, loop_error, win_err, call_failed, closing,
  error_text, behind_icon, initialize, run_loop, after_initialize, run,
}
use omni_sshagent.Tray.Run.Handles.{
  made, calls_of, given_back, Stage, AfterWindow, initialize-Stage, made-append, calls_of-append,
  made-called, calls_of-called,
}

-- A tray whose three handles are there.
abbrev IsOpen : Tray → Type 0
IsOpen t = ((t.window == 0) ≡ false) × ((t.icon == 0) ≡ false) × ((t.menu == 0) ≡ false)

abbrev IsClosed : Tray → Type 0
IsClosed t = (t.window ≡ 0) × (t.icon ≡ 0) × (t.menu ≡ 0) × (t.added ≡ false)

-- The calls destroy the three handles, but for the window where `WM_DESTROY` was answered.
abbrev GivesBack : Tray → List Call → Type 0
GivesBack t calls =
    (destroyed_by calls ≡ menu t.menu ∷ window t.window ∷ icon t.icon ∷ [])
    ⊎ ((destroyed_by calls ≡ menu t.menu ∷ icon t.icon ∷ []) × (has_quit calls ≡ true))

close-GivesBack :
    (t u : Tray) (calls : List Call)
    → IsOpen t
    → Keeps t u calls
    → GivesBack t (calls ++ (close u).1)
close-GivesBack t u calls o k = cases k.window_same
  where
    cases :
        (u.window ≡ t.window) ⊎ ((u.window ≡ 0) × (has_quit calls ≡ true))
        → GivesBack t (calls ++ (close u).1)
    cases (inl same) = inl (
        destroyed_by-append calls (close u).1
        ∙ rw
            (
              k.destroys_nothing,
              (close-destroys u).0,
              k.menu_same,
              same,
              k.icon_same,
              o.0,
              o.1,
              o.2,
            )
            refl)
    cases (inr gone) = inr (
      destroyed_by-append calls (close u).1
          ∙ rw
              (k.destroys_nothing, (close-destroys u).0, k.menu_same, gone.0, k.icon_same, o.1, o.2)
              refl,
      has_quit-append calls (close u).1 ∙ rw (gone.1) refl,
    )

-- What a run leaves: the tray is closed, and the handles that were made are given back.
abbrev pub Releases : List Act → Tray → Type 0
Releases acts t =
    (t.window ≡ 0)
    × (t.icon ≡ 0)
    × (t.menu ≡ 0)
    × (t.added ≡ false)
    × ((w : ℕ) × (i : ℕ) × (m : ℕ) × (made acts ≡ window w ∷ icon i ∷ menu m ∷ [])
        × ((given_back acts ≡ menu m ∷ window w ∷ icon i ∷ [])
            ⊎ ((given_back acts ≡ menu m ∷ icon i ∷ []) × (has_quit (calls_of acts) ≡ true))))

calls_of-closing :
    (u : Tray) (l m : List Call) (e : Option RunError)
    → calls_of (closing u (map called l ++ map called m) e).acts ≡ (l ++ m) ++ (close u).1
unfolding closing
calls_of-closing u l m e =
    calls_of-append (map called l ++ map called m) (map called (close u).1)
    ∙ rw
        (
          calls_of-append (map called l) (map called m),
          calls_of-called l,
          calls_of-called m,
          calls_of-called (close u).1,
        )
        refl

made-closing :
    (u : Tray) (l m : List Call) (e : Option RunError)
    → made (closing u (map called l ++ map called m) e).acts ≡ []
unfolding closing
made-closing u l m e =
    made-append (map called l ++ map called m) (map called (close u).1)
    ∙ rw
        (
          made-append (map called l) (map called m),
          made-called l,
          made-called m,
          made-called (close u).1,
        )
        refl

-- What is left of a tray whose handles stand in the acts before, once it is closed.
closing-Releases :
    (t u : Tray) (before : List Act) (l m : List Call) (e : Option RunError)
    → IsOpen t
    → made before ≡ window t.window ∷ icon t.icon ∷ menu t.menu ∷ []
    → given_back before ≡ []
    → has_quit (calls_of before) ≡ false
    → Keeps t u (l ++ m)
    → Releases
        (before ++ (closing u (map called l ++ map called m) e).acts)
        (closing u (map called l ++ map called m) e).tray
closing-Releases t u before l m e o made_before given quits k =
    let done : Started = closing u (map called l ++ map called m) e in
    let shut = close_twice u in
    let calls : calls_of (before ++ done.acts) ≡ calls_of before ++ ((l ++ m) ++ (close u).1) =
      calls_of-append before done.acts ∙ rw (calls_of-closing u l m e) refl in
    let back : given_back (before ++ done.acts) ≡ destroyed_by ((l ++ m) ++ (close u).1) =
      ap destroyed_by calls
      ∙ destroyed_by-append (calls_of before) ((l ++ m) ++ (close u).1)
      ∙ rw (given) refl in
    let gone : has_quit (calls_of (before ++ done.acts)) ≡ has_quit ((l ++ m) ++ (close u).1) =
      ap has_quit calls
      ∙ has_quit-append (calls_of before) ((l ++ m) ++ (close u).1)
      ∙ rw (quits) refl in
    (
      unfold closing in shut.2,
      unfold closing in shut.3,
      unfold closing in shut.1,
      unfold closing in shut.0,
      (
        t.window,
        t.icon,
        t.menu,
        made-append before done.acts ∙ rw (made-closing u l m e, made_before) refl,
        parts (before ++ done.acts) ((l ++ m) ++ (close u).1) back gone
            (close-GivesBack t u (l ++ m) o k),
      ),
    )
  where
    parts :
        (acts : List Act) (calls : List Call)
        → given_back acts ≡ destroyed_by calls
        → has_quit (calls_of acts) ≡ has_quit calls
        → GivesBack t calls
        → (given_back acts ≡ menu t.menu ∷ window t.window ∷ icon t.icon ∷ [])
          ⊎ ((given_back acts ≡ menu t.menu ∷ icon t.icon ∷ []) × (has_quit (calls_of acts) ≡ true))
    parts acts calls back gone (inl g) = inl (back ∙ g)
    parts acts calls back gone (inr (g, q)) = inr (back ∙ g, gone ∙ q)

behind_icon-Releases :
    (s : Startup) (events : List Event) (end' : LoopEnd) (t : Tray) (before : List Act) (b : Bool)
    (u : Tray) (calls : List Call)
    → All IsArriving events
    → IsOpen t
    → made before ≡ window t.window ∷ icon t.icon ∷ menu t.menu ∷ []
    → given_back before ≡ []
    → has_quit (calls_of before) ≡ false
    → Keeps t u calls
    → Releases
        (before ++ (behind_icon s events end' b (u, calls)).acts)
        (behind_icon s events end' b (u, calls)).tray
unfolding behind_icon
behind_icon-Releases s events end' t before true u calls h o m g q k =
    closing-Releases t (Runs.run events u).0 before calls (Runs.run events u).1 (loop_error end') o
      m g q (Keeps-append k (run-Keeps events u h))
behind_icon-Releases s events end' t before false u calls h o m g q k =
    closing-Releases t u before calls (fatal_shown (win_err s.icon_error) ∷ [])
      (some (call_failed (win_err s.icon_error))) o m g q (Keeps-append k (ground arith))

after_initialize-Releases :
    (s : Startup) (events : List Event) (end' : LoopEnd) (started : Started)
    → All IsArriving events
    → given_back started.acts ≡ []
    → has_quit (calls_of started.acts) ≡ false
    → AfterWindow started.tray (made started.acts)
    → Releases
        (after_initialize s events end' started none).acts
        (after_initialize s events end' started none).tray
unfolding after_initialize run_loop
after_initialize-Releases s events end' started h g q (w, i, m, handles) =
    let (u, calls) = add_icon s.answers started.tray in
    behind_icon-Releases s events end' started.tray started.acts s.answers.icon_accepted u calls h
      (w, i, m) handles g q (add_icon-Keeps s.answers started.tray)

after_failure :
    (s : Startup) (events : List Event) (end' : LoopEnd) (started : Started) (e : RunError)
    → given_back started.acts ≡ []
    → (given_back (after_initialize s events end' started (some e)).acts ≡ [])
      × (made (after_initialize s events end' started (some e)).acts ≡ made started.acts)
unfolding after_initialize
after_failure s events end' started e g =
    let shown : List Act = called (fatal_shown (error_text e)) ∷ [] in
    (
      ap destroyed_by (calls_of-append started.acts shown)
          ∙ destroyed_by-append (calls_of started.acts) (calls_of shown)
          ∙ rw (g) refl,
      made-append started.acts shown ∙ append-nil (made started.acts),
    )

-- How a run of `Run` on a tray ends: no tray is active, and either `initialize` has succeeded and
-- what was made is given back, or its error is returned and what it has made is not given back.
abbrev pub Ends : Startup → Tray → Bool × Started → Type 0
Ends s t (is_active, done) =
    (is_active ≡ false)
    × ((((initialize s t).error ≡ none) × Releases done.acts done.tray)
        ⊎ ((e : RunError) × ((initialize s t).error ≡ some e)
            × (done.error ≡ some e)
            × (given_back done.acts ≡ [])
            × (made done.acts ≡ made (initialize s t).acts)))

-- `Run`, while no tray is active and the icon does not stand in the notification area. Where
-- `initialize` succeeds, the tray is closed in the end, however the loop ends, and the handles that
-- were made, a window, an icon and a menu, are destroyed, once each; the window is left out where
-- `WM_DESTROY` has arrived for it. Where `initialize` fails, its error is returned and no handle is
-- destroyed, also none that it has made.
pub run-Releases :
    (s : Startup) (events : List Event) (end' : LoopEnd) (t : Tray)
    → t.added ≡ false
    → All IsArriving events
    → Ends s t (run s events end' false t)
unfolding run
run-Releases s events end' t a h = (refl, cases (initialize s t) (initialize-Stage s t a))
  where
    cases :
        (started : Started)
        → Stage AfterWindow started
        → ((started.error ≡ none)
            × Releases
                (after_initialize s events end' started started.error).acts
                (after_initialize s events end' started started.error).tray)
          ⊎ ((e : RunError) × (started.error ≡ some e)
              × ((after_initialize s events end' started started.error).error ≡ some e)
              × (given_back (after_initialize s events end' started started.error).acts ≡ [])
              × (made (after_initialize s events end' started started.error).acts
                  ≡ made started.acts))
    cases started (given, quits, added, inr (fine, r)) =
        inl (fine, rw (fine) (after_initialize-Releases s events end' started h given quits r))
    cases started (given, quits, added, inl (e, failed)) =
        let (back, same) = after_failure s events end' started e given in
        inr (e, failed, rw (failed) refl, rw (failed) back, rw (failed) same)
