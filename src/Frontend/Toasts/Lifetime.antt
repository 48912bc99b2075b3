-- ===== src/Frontend/Toasts/Lifetime.antt =====
-- services/frontend/src/context/ToastContext.tsx: how long a message stays.
use micro_blog.Base.{
  ◌≡◌, refl, ◌∙◌, inl, inr, ℕ, ◌+◌, ◌<◌, Text, nat_eq, ◌==◌, ==_iff, ==_refl, true, false, not,
  ◌&&◌, List, [], ◌∷◌, arith, filter, any, All, All-append, All-filter, All-imp, leb, Bool-cases,
}
use micro_blog.Sql.Laws.{any-append, any-append_true, any-append_last}
use micro_blog.Frontend.Toasts.{
  ToastType, ToastItem, Timer, Toasts, ToastEvent, toast, remove_toast, clock, no_toasts, lifetime,
  without_toast, fire, step, run, is_shown, takes_away,
}

-- Every toast and every timer is of an identifier that was given out.
record IsGiven (s : Toasts) : Type 0 where
  toasts_given : All (λ (t : ToastItem). t.id < s.next_id) s.toasts
  timers_given : All (λ (t : Timer). t.id < s.next_id) s.timers

-- The toast is there, and just one time is set for it.
record IsPending (due id : ℕ) (s : Toasts) : Type 0 where
  given : id < s.next_id
  shown : is_shown id s ≡ true
  timed : any (λ (t : Timer). (t.id == id) && (t.due == due)) s.timers ≡ true
  only : All (λ (t : Timer). (t.id == id && not (t.due == due)) ≡ false) s.timers

record IsGone (id : ℕ) (s : Toasts) : Type 0 where
  given : id < s.next_id
  gone : is_shown id s ≡ false

any-without :
    (id : ℕ) (toasts : List ToastItem) → any (λ t. t.id == id) (without_toast id toasts) ≡ false
any-without id [] = refl
any-without id (t ∷ toasts) = ground (arith, any-without id toasts)

any-without_other :
    (id j : ℕ) (toasts : List ToastItem)
    → (j == id) ≡ false
    → any (λ t. t.id == id) (without_toast j toasts) ≡ any (λ t. t.id == id) toasts
any-without_other id j [] n = refl
any-without_other id j (t ∷ toasts) n = ground (arith, any-without_other id j toasts n)

any-without_false :
    (id j : ℕ) (toasts : List ToastItem)
    → any (λ t. t.id == id) toasts ≡ false
    → any (λ t. t.id == id) (without_toast j toasts) ≡ false
any-without_false id j [] n = refl
any-without_false id j (t ∷ toasts) n = ground (arith, any-without_false id j toasts)

-- A toast that is gone stays so.
fire_gone :
    (now id : ℕ) (timers : List Timer) (toasts : List ToastItem)
    → any (λ t. t.id == id) toasts ≡ false
    → any (λ t. t.id == id) (fire now timers toasts) ≡ false
fire_gone now id [] toasts h = h
fire_gone now id (t ∷ timers) toasts h = elim (Bool-cases (leb t.due now)) [
  | inl y ↦ rw y (fire_gone now id timers _ (any-without_false id t.id toasts h))
  | inr n ↦ rw n (fire_gone now id timers toasts h)
]

fire_early :
    (now due id : ℕ) (timers : List Timer) (toasts : List ToastItem)
    → leb due now ≡ false
    → All (λ (t : Timer). (t.id == id && not (t.due == due)) ≡ false) timers
    → any (λ t. t.id == id) (fire now timers toasts) ≡ any (λ t. t.id == id) toasts
fire_early now due id [] toasts e h = refl
fire_early now due id (t ∷ timers) toasts e (o, h) = elim (Bool-cases (leb t.due now)) [
  | inl y ↦
      rw y (fire_early now due id timers _ e h ∙ any-without_other id t.id toasts (ground arith))
  | inr n ↦ rw n (fire_early now due id timers toasts e h)
]

fire_due :
    (now due id : ℕ) (timers : List Timer) (toasts : List ToastItem)
    → leb due now ≡ true
    → any (λ (t : Timer). (t.id == id) && (t.due == due)) timers ≡ true
    → any (λ t. t.id == id) (fire now timers toasts) ≡ false
fire_due now due id [] toasts e h = cc
fire_due now due id (t ∷ timers) toasts e h = elim (Bool-cases (t.id == id && t.due == due)) [
  | inl y ↦
      let same : t.id ≡ id = ground arith in
      let early : leb t.due now ≡ true = ground arith in
      rw (early, same) (fire_gone now id timers _ (any-without id toasts))
  | inr n ↦ fire_due now due id timers _ e (ground arith)
]

any-timers :
    (now due id : ℕ) (timers : List Timer)
    → leb due now ≡ false
    → any (λ (t : Timer). (t.id == id) && (t.due == due)) timers ≡ true
    → any (λ (t : Timer). (t.id == id) && (t.due == due)) (filter (λ t. not (leb t.due now)) timers)
      ≡ true
any-timers now due id [] e h = h
any-timers now due id (t ∷ timers) e h = ground (arith, any-timers now due id timers e)

step-IsGone : (id : ℕ) (e : ToastEvent) (s : Toasts) → IsGone id s → IsGone id (step e s)
unfolding step
step-IsGone id (toast now message kind) s h = record {
  given = omega (arith, h.given);
  gone = any-append _ s.toasts _ h.gone (ground (arith, h.given));
}
step-IsGone id (remove_toast j) s h = record {
  given = h.given;
  gone = any-without_false id j s.toasts h.gone;
}
step-IsGone id (clock now) s h = record {
  given = h.given;
  gone = fire_gone now id s.timers s.toasts h.gone;
}

step-IsPending :
    (due id : ℕ) (e : ToastEvent) (s : Toasts)
    → IsPending due id s
    → takes_away due id e ≡ false
    → IsPending due id (step e s)
unfolding step
step-IsPending due id (toast now message kind) s h e = record {
  given = omega (arith, h.given);
  shown = any-append_true _ s.toasts _ h.shown;
  timed = any-append_true _ s.timers _ h.timed;
  only = All-append _ s.timers _ h.only (ground (arith, h.given), tt);
}
step-IsPending due id (remove_toast j) s h e = record {
  given = h.given;
  shown = any-without_other id j s.toasts e ∙ h.shown;
  timed = h.timed;
  only = h.only;
}
step-IsPending due id (clock now) s h e = record {
  given = h.given;
  shown = fire_early now due id s.timers s.toasts e h.only ∙ h.shown;
  timed = any-timers now due id s.timers e h.timed;
  only = All-filter _ _ s.timers h.only;
}

step-taken :
    (due id : ℕ) (e : ToastEvent) (s : Toasts)
    → IsPending due id s
    → takes_away due id e ≡ true
    → IsGone id (step e s)
unfolding step
step-taken due id (toast now message kind) s h e = cc
step-taken due id (remove_toast j) s h e = record {
  given = h.given;
  gone = let same = (==_iff j id).0 e in rw same (any-without id s.toasts);
}
step-taken due id (clock now) s h e = record {
  given = h.given;
  gone = fire_due now due id s.timers s.toasts e h.timed;
}

run_gone :
    (id : ℕ) (events : List ToastEvent) (s : Toasts)
    → IsGone id s
    → is_shown id (run events s) ≡ false
unfolding run
run_gone id [] s h = h.gone
run_gone id (e ∷ events) s h = run_gone id events (step e s) (step-IsGone id e s h)

run_pending :
    (due id : ℕ) (events : List ToastEvent) (s : Toasts)
    → IsPending due id s
    → is_shown id (run events s) ≡ not (any (takes_away due id) events)
unfolding run
run_pending due id [] s h = h.shown
run_pending due id (e ∷ events) s h = elim (Bool-cases (takes_away due id e)) [
  | inl y ↦ rw y (run_gone id events (step e s) (step-taken due id e s h y))
  | inr n ↦ rw n (run_pending due id events (step e s) (step-IsPending due id e s h n))
]

fire-All :
    (P : ToastItem → Type 0) (now : ℕ) (timers : List Timer) (toasts : List ToastItem)
    → All P toasts
    → All P (fire now timers toasts)
fire-All P now [] toasts h = h
fire-All P now (t ∷ timers) toasts h = elim (Bool-cases (leb t.due now)) [
  | inl y ↦ rw y (fire-All P now timers _ (All-filter P _ toasts h))
  | inr n ↦ rw n (fire-All P now timers toasts h)
]

step-IsGiven : (e : ToastEvent) (s : Toasts) → IsGiven s → IsGiven (step e s)
unfolding step
step-IsGiven (toast now message kind) s h = record {
  toasts_given =
      All-append _ s.toasts _
        (All-imp _ _ (λ t (lt : t.id < s.next_id). omega arith) s.toasts h.toasts_given)
        (omega arith, tt);
  timers_given =
      All-append _ s.timers _
        (All-imp _ _ (λ t (lt : t.id < s.next_id). omega arith) s.timers h.timers_given)
        (omega arith, tt);
}
step-IsGiven (remove_toast j) s h = record {
  toasts_given = All-filter _ _ s.toasts h.toasts_given;
  timers_given = h.timers_given;
}
step-IsGiven (clock now) s h = record {
  toasts_given = fire-All _ now s.timers s.toasts h.toasts_given;
  timers_given = All-filter _ _ s.timers h.timers_given;
}

run-IsGiven : (events : List ToastEvent) (s : Toasts) → IsGiven s → IsGiven (run events s)
unfolding run
run-IsGiven [] s h = h
run-IsGiven (e ∷ events) s h = run-IsGiven events (step e s) (step-IsGiven e s h)

toast-IsPending :
    (now : ℕ) (message : Text) (kind : ToastType) (s : Toasts)
    → IsGiven s
    → IsPending (now + lifetime) s.next_id (step (toast now message kind) s)
unfolding step
toast-IsPending now message kind s h = record {
  given = omega arith;
  shown = any-append_last _ s.toasts _ (==_refl s.next_id);
  timed = any-append_last _ s.timers _ (ground arith);
  only =
      All-append _ s.timers _
        (All-imp _ _ (λ t (lt : t.id < s.next_id). ground arith) s.timers h.timers_given)
        (ground arith, tt);
}

-- Whatever happened before and whatever happens after: a toast is on the screen until it is removed or the
-- clock gets to four seconds after it was shown, and then no longer.
pub run-toast :
    (before after : List ToastEvent) (now : ℕ) (message : Text) (kind : ToastType)
    → is_shown
        (run before no_toasts).next_id
        (run after (step (toast now message kind) (run before no_toasts)))
      ≡ not (any (takes_away (now + 4000) (run before no_toasts).next_id) after)
run-toast before after now message kind =
    let given = run-IsGiven before no_toasts (record { toasts_given = tt; timers_given = tt }) in
    run_pending (now + lifetime) (run before no_toasts).next_id after _
      (toast-IsPending now message kind _ given)
