-- ===== src/Transport/Replay/Window.antt =====
-- The guard refuses exactly the entries among the last ones that it admitted.
use tevir.Prelude.{
  ◌+◌, ◌-◌, ◌≡◌, refl, sym, ap, ◌∙◌, Bool, true, false, not, List, [], ◌∷◌, ◌++◌, length, any, ltb,
  ◌==◌, Bool-cases, inl, inr, subst, if◌then◌else◌, if-cases, arith,
}
use mathlib.Core.List.{append-nil, append_assoc}
use tevir.Transport.Replay.Queue.{
  recent, Once, has-append, has-remove, Once-append, grown, still_fits, length-queued,
  expired_queue, uncons,
}
use tevir.Transport.Replay.{
  ReplayEntry, ReplayGuard, replay_entry_eq, has_entry, remove_entry, default_replay_capacity, new,
  expire, admit,
}

-- The guard after a sequence of attempts, and the attempts that it admitted, the oldest first.
unfoldable pub run : ReplayGuard → List ReplayEntry → ReplayGuard
run g [] = g
run g (e ∷ es) = run (admit g e.node e.nonce).0 es

unfoldable pub admitted : ReplayGuard → List ReplayEntry → List ReplayEntry
admitted g [] = []
admitted g (e ∷ es) =
    let answer = admit g e.node e.nonce in (if answer.1 then e ∷ [] else []) ++ admitted answer.0 es

-- The queue holds the last admitted entries, each once, and the set holds those of the queue.
record Tracks (g : ReplayGuard) (history : List ReplayEntry) : Type 0 where
  queued : g.order ≡ recent g.capacity history
  once : Once g.order
  same : (e : ReplayEntry) → has_entry g.entries e ≡ has_entry g.order e

-- Whether the queue with one more element is too long.
too_long :
    (g : ReplayGuard) (history : List ReplayEntry) (e : ReplayEntry)
    → g.order ≡ recent g.capacity history
    → ltb g.capacity (length (g.order ++ e ∷ [])) ≡ ltb g.capacity (length history + 1)
too_long g history e q =
    let counted : length (g.order ++ e ∷ []) ≡ length history - (length history - g.capacity) + 1 =
      ap (λ o. length (o ++ e ∷ [])) q ∙ length-queued g.capacity history e in
    rw counted (ground arith)

expire_short : (g : ReplayGuard) → ltb g.capacity (length g.order) ≡ false → expire g ≡ g
unfolding expire
expire_short g h = rw h

expire_long :
    (g : ReplayGuard) (x : ReplayEntry) (rest : List ReplayEntry)
    → ltb g.capacity (length g.order) ≡ true
    → g.order ≡ x ∷ rest
    → expire g ≡ record g { order = rest; entries = remove_entry x g.entries }
unfolding expire
expire_long g x rest h e = ground arith

-- The guard with a new entry, before the oldest one expires.
abbrev with_entry : ReplayGuard → ReplayEntry → ReplayGuard
with_entry g e = record g { order = g.order ++ e ∷ []; entries = e ∷ g.entries }

with_entry-same :
    (g : ReplayGuard) (e : ReplayEntry)
    → ((k : ReplayEntry) → has_entry g.entries k ≡ has_entry g.order k)
    → (k : ReplayEntry) → has_entry (e ∷ g.entries) k ≡ has_entry (g.order ++ e ∷ []) k
unfolding has_entry any
with_entry-same g e same k = ground (arith, has-append g.order (e ∷ []) k, same k)

removed-same :
    (entries : List ReplayEntry) (x : ReplayEntry) (rest : List ReplayEntry)
    → has_entry rest x ≡ false
    → ((k : ReplayEntry) → has_entry entries k ≡ has_entry (x ∷ rest) k)
    → (k : ReplayEntry) → has_entry (remove_entry x entries) k ≡ has_entry rest k
unfolding has_entry any
removed-same entries x rest once same k = elim (Bool-cases (x == k)) [
  | inl hit ↦
      let here : x ≡ k = (replay_entry_eq.eq_iff x k).0 hit in
      let gone : has_entry rest k ≡ false = subst (λ j. has_entry rest j ≡ false) here once in
      ground (arith, has-remove x entries k)
  | inr miss ↦ ground (arith, has-remove x entries k, same k)
]

added-Tracks :
    (g : ReplayGuard) (history : List ReplayEntry) (e : ReplayEntry)
    → Tracks g history
    → has_entry g.entries e ≡ false
    → Tracks (expire (with_entry g e)) (history ++ e ∷ [])
added-Tracks g history e t new_ =
    let once = Once-append g.order e (sym (t.same e) ∙ new_) t.once in
    let same = with_entry-same g e t.same in
    let queued = ap (λ o. o ++ e ∷ []) t.queued in
    let measured = too_long g history e t.queued in
    elim (Bool-cases (ltb g.capacity (length history + 1))) [
      | inr short ↦
          subst (λ u. Tracks u (history ++ e ∷ []))
            (sym (expire_short (with_entry g e) (measured ∙ short)))
            (record {
              queued =
                  queued
                  ∙ grown g.capacity history e
                  ∙ still_fits g.capacity history e (ground arith);
              once = once;
              same = same;
            })
      | inl long ↦
          let (x, rest, shape) = uncons g.order e in
          let kept = subst Once shape once in
          subst (λ u. Tracks u (history ++ e ∷ []))
            (sym (expire_long (with_entry g e) x rest (measured ∙ long) shape))
            (record {
              queued =
                  expired_queue g.capacity history e x rest (ground arith) (sym queued ∙ shape);
              once = kept.1;
              same = removed-same (e ∷ g.entries) x rest kept.0 (
                  subst (λ o. (k : ReplayEntry) → has_entry (e ∷ g.entries) k ≡ has_entry o k) shape
                    same);
            })
    ]

expire-capacity : (g : ReplayGuard) → (expire g).capacity ≡ g.capacity
unfolding expire
expire-capacity g = ground arith

admit-capacity :
    (g : ReplayGuard) (e : ReplayEntry) → (admit g e.node e.nonce).0.capacity ≡ g.capacity
unfolding admit
admit-capacity g e = ground arith

run-capacity : (g : ReplayGuard) (es : List ReplayEntry) → (run g es).capacity ≡ g.capacity
unfolding run
run-capacity g [] = refl
run-capacity g (e ∷ es) = run-capacity (admit g e.node e.nonce).0 es ∙ admit-capacity g e

admit-Tracks :
    (g : ReplayGuard) (history : List ReplayEntry) (e : ReplayEntry)
    → Tracks g history
    → let answer = admit g e.node e.nonce in
      Tracks answer.0 (history ++ (if answer.1 then e ∷ [] else []))
unfolding admit
admit-Tracks g history e t =
    if-cases (λ (a : ReplayGuard × Bool). Tracks a.0 (history ++ (if a.1 then e ∷ [] else [])))
      (has_entry g.entries e) (g, false) (expire (with_entry g e), true)
      (λ _. subst (Tracks g) (sym (append-nil history)) t) (λ new_. added-Tracks g history e t new_)

run-Tracks :
    (g : ReplayGuard) (history es : List ReplayEntry)
    → Tracks g history
    → Tracks (run g es) (history ++ admitted g es)
unfolding run admitted
run-Tracks g history [] t = subst (Tracks g) (sym (append-nil history)) t
run-Tracks g history (e ∷ es) t =
    let answer = admit g e.node e.nonce in
    subst (Tracks (run answer.0 es))
      (append_assoc history (if answer.1 then e ∷ [] else []) (admitted answer.0 es))
      (run-Tracks answer.0 (history ++ (if answer.1 then e ∷ [] else [])) es
        (admit-Tracks g history e t))

new-Tracks : Tracks new []
unfolding new has_entry
new-Tracks = record { queued = refl; once = tt; same = λ e. refl }

answer_lem :
    (g : ReplayGuard) (e : ReplayEntry) → (admit g e.node e.nonce).1 ≡ not (has_entry g.entries e)
unfolding admit
answer_lem g e = ground arith

-- After any sequence of attempts on a new guard, an attempt is refused exactly if its pair of a node
-- and a nonce is among the last 1024 pairs that the guard admitted.
pub admit_lem :
    (es : List ReplayEntry) (e : ReplayEntry)
    → (admit (run new es) e.node e.nonce).1
      ≡ not (has_entry (recent default_replay_capacity (admitted new es)) e)
unfolding new
admit_lem es e =
    let t = run-Tracks new [] es new-Tracks in
    answer_lem (run new es) e
    ∙ ap not (
        t.same e
        ∙ ap (λ q. has_entry q e)
            (t.queued ∙ ap (λ n. recent n (admitted new es)) (run-capacity new es)))
