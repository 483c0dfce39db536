-- ===== src/Transport/Replay/Queue.antt =====
-- The end of a growing list, as a queue that drops its oldest element holds it.
use tevir.Prelude.{
  ℕ, zero, suc, ◌+◌, ◌-◌, ◌≤◌, ◌≡◌, refl, sym, ap, ◌∙◌, false, ◌&&◌, ◌||◌, not, List, [], ◌∷◌, ◌++◌,
  length, length-append, length-drop, any, filter, drop, ◌==◌, arith,
}
use tevir.Transport.Replay.{ReplayEntry, replay_entry_eq, has_entry, remove_entry}

-- The last `n` elements of a list.
abbrev pub recent {ℓ} : {A : Type ℓ} → ℕ → List A → List A
recent n xs = drop (length xs - n) xs

-- No entry stands in the list twice.
abbrev pub Once : List ReplayEntry → Type 0
Once [] = Unit
Once (e ∷ es) = (has_entry es e ≡ false) × Once es

pub has-append :
    (xs ys : List ReplayEntry) (e : ReplayEntry)
    → has_entry (xs ++ ys) e ≡ (has_entry xs e || has_entry ys e)
unfolding has_entry any
has-append [] ys e = refl
has-append (x ∷ xs) ys e = ground (arith, has-append xs ys e)

pub has-remove :
    (x : ReplayEntry) (xs : List ReplayEntry) (e : ReplayEntry)
    → has_entry (remove_entry x xs) e ≡ (has_entry xs e && not (x == e))
unfolding has_entry remove_entry any filter
has-remove x [] e = refl
has-remove x (y ∷ ys) e = ground (
  arith,
  replay_entry_eq.eq_iff y x,
  replay_entry_eq.eq_iff y e,
  replay_entry_eq.eq_iff x e,
  has-remove x ys e,
)

pub Once-append :
    (xs : List ReplayEntry) (e : ReplayEntry)
    → has_entry xs e ≡ false
    → Once xs
    → Once (xs ++ e ∷ [])
unfolding has_entry any
Once-append [] e h o = (refl, tt)
Once-append (x ∷ xs) e h o = (
  ground (arith, has-append xs (e ∷ []) x, replay_entry_eq.eq_iff x e, replay_entry_eq.eq_iff e x),
  Once-append xs e (ground arith) o.1,
)

drop-append :
    (n : ℕ) (xs ys : List ReplayEntry) → n ≤ length xs → drop n (xs ++ ys) ≡ drop n xs ++ ys
drop-append zero xs ys h = refl
drop-append (suc n) [] ys h = absurd (omega arith)
drop-append (suc n) (x ∷ xs) ys h = drop-append n xs ys (omega arith)

drop-suc :
    (n : ℕ) (xs : List ReplayEntry) (x : ReplayEntry) (rest : List ReplayEntry)
    → drop n xs ≡ x ∷ rest
    → drop (suc n) xs ≡ rest
drop-suc zero xs x rest h = ground arith
drop-suc (suc n) [] x rest h = absurd (ground arith)
drop-suc (suc n) (y ∷ ys) x rest h = drop-suc n ys x rest h

-- The list before the oldest element is dropped, for a history one longer.
pub grown :
    (capacity : ℕ) (history : List ReplayEntry) (e : ReplayEntry)
    → recent capacity history ++ e ∷ [] ≡ drop (length history - capacity) (history ++ e ∷ [])
grown capacity history e =
    sym (drop-append (length history - capacity) history (e ∷ []) (omega arith))

pub still_fits :
    (capacity : ℕ) (history : List ReplayEntry) (e : ReplayEntry)
    → length history + 1 ≤ capacity
    → drop (length history - capacity) (history ++ e ∷ []) ≡ recent capacity (history ++ e ∷ [])
still_fits capacity history e h =
    ap (λ n. drop n (history ++ e ∷ [])) (omega (arith, length-append history (e ∷ [])))

pub length-queued :
    (capacity : ℕ) (history : List ReplayEntry) (e : ReplayEntry)
    → length (recent capacity history ++ e ∷ []) ≡ length history - (length history - capacity) + 1
length-queued capacity history e = omega (
  arith,
  length-append (recent capacity history) (e ∷ []),
  length-drop (length history - capacity) history,
)

-- The queue after `expire`, where it had the oldest element too many or not.
pub expired_queue :
    (capacity : ℕ) (history : List ReplayEntry) (e x : ReplayEntry) (rest : List ReplayEntry)
    → capacity ≤ length history
    → recent capacity history ++ e ∷ [] ≡ x ∷ rest
    → rest ≡ recent capacity (history ++ e ∷ [])
expired_queue capacity history e x rest full h =
    let more : suc (length history - capacity) ≡ length (history ++ e ∷ []) - capacity =
      omega (arith, length-append history (e ∷ [])) in
    sym (
      drop-suc (length history - capacity) (history ++ e ∷ []) x rest
        (sym (grown capacity history e) ∙ h))
    ∙ ap (λ n. drop n (history ++ e ∷ [])) more

pub uncons :
    (xs : List ReplayEntry) (e : ReplayEntry)
    → (x : ReplayEntry) × (rest : List ReplayEntry) × (xs ++ e ∷ [] ≡ x ∷ rest)
uncons [] e = (e, [], refl)
uncons (x ∷ xs) e = (x, xs ++ e ∷ [], refl)
