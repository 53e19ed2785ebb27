-- ===== src/FileLog/Order.antt =====
-- old/pkg/filelog/filelog.go: what the log tries to write, and in which order.
use omni_sshagent.Base.{
  ℕ, true, false, List, [], ◌∷◌, ◌++◌, map, ◌≡◌, refl, sym, ap, ◌∙◌, arith, Bool-cases, inl, inr,
}
use mathlib.Core.List.{map-append, append_assoc, append-nil}
use omni_sshagent.FileLog.{
  Attempt, Slice, Log, Opening, write_bytes, Goes, checks, sends, takes, cancels, stops, enables,
  reuses, Reachable, start, goes,
}

abbrev slice_of : Attempt → Slice
slice_of a = a.slice

-- The slices that the worker has tried to write, in order.
abbrev pub tried : Log → List Slice
tried l = map slice_of l.out

abbrev pub InOrder : Log → Type 0
InOrder l = tried l ++ l.queue ≡ l.sent

write_bytes-tried :
    (o : Opening) (p : Slice) (l : Log) → tried (write_bytes o p l) ≡ tried l ++ p ∷ []
unfolding write_bytes
write_bytes-tried o p l = elim (Bool-cases l.enabled) [
  | inl e ↦ rw (e) (map-append slice_of l.out _)
  | inr e ↦ rw (e) (map-append slice_of l.out _)
]

write_bytes-queue : (o : Opening) (p : Slice) (l : Log) → (write_bytes o p l).queue ≡ l.queue
unfolding write_bytes
write_bytes-queue o p l = ground arith

write_bytes-sent : (o : Opening) (p : Slice) (l : Log) → (write_bytes o p l).sent ≡ l.sent
unfolding write_bytes
write_bytes-sent o p l = ground arith

Goes-InOrder : {l m : Log} → Goes l m → InOrder l → InOrder m
Goes-InOrder (checks p l e) h = h
Goes-InOrder (sends before after p l e k) h =
    sym (append_assoc (tried l) l.queue (p ∷ [])) ∙ ap (λ (q : List Slice). q ++ p ∷ []) h
Goes-InOrder (takes o p rest l e k) h =
    rw
      (
        write_bytes-tried o p (record l { queue = rest }),
        write_bytes-queue o p (record l { queue = rest }),
        write_bytes-sent o p (record l { queue = rest }),
        append_assoc (tried l) (p ∷ []) rest,
      )
      (ap (λ (q : List Slice). tried l ++ q) (sym k) ∙ h)
Goes-InOrder (cancels l) h = h
Goes-InOrder (reuses m l) h = h
Goes-InOrder (stops l e k q) h = h
Goes-InOrder (enables b l) h = h

pub Reachable-InOrder : {size : ℕ} {l : Log} → Reachable size l → tried l ++ l.queue ≡ l.sent
Reachable-InOrder (start memory) = refl
Reachable-InOrder (goes k l r g) = Goes-InOrder g (Reachable-InOrder r)

write_bytes-stopped : (o : Opening) (p : Slice) (l : Log) → (write_bytes o p l).stopped ≡ l.stopped
unfolding write_bytes
write_bytes-stopped o p l = ground arith

stop-tried :
    {l m : Log} → Goes l m → InOrder l → l.stopped ≡ false → m.stopped ≡ true → tried m ≡ m.sent
stop-tried (checks p l e) i a b = ground (arith, a, b)
stop-tried (sends before after p l e k) i a b = ground (arith, a, b)
stop-tried (takes o p rest l e k) i a b =
    ground (arith, a, b, write_bytes-stopped o p (record l { queue = rest }))
stop-tried (cancels l) i a b = ground (arith, a, b)
stop-tried (reuses m l) i a b = ground (arith, a, b)
stop-tried (stops l e k q) i a b =
    sym (append-nil (tried l)) ∙ ap (λ (p : List Slice). tried l ++ p) (sym q) ∙ i
stop-tried (enables b l) i a c = ground (arith, a, c)

-- The worker ends only after it has tried all that the channel had taken until then.
pub stops-tried :
    {size : ℕ} {l m : Log}
    → Reachable size l
    → Goes l m
    → l.stopped ≡ false
    → m.stopped ≡ true
    → tried m ≡ m.sent
stops-tried r g e h = stop-tried g (Reachable-InOrder r) e h

-- Behind the worker's end nothing more is written: what a writer still sends is lost.
pub frozen : {l m : Log} → Goes l m → l.stopped ≡ true → m.out ≡ l.out
frozen (checks p l e) h = refl
frozen (sends before after p l e k) h = refl
frozen (takes o p rest l e k) h = ground (arith, e, h)
frozen (cancels l) h = refl
frozen (reuses m l) h = refl
frozen (stops l e k q) h = refl
frozen (enables b l) h = refl
