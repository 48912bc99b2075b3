-- ===== src/Frontend/Toasts.antt =====
-- services/frontend/src/context/ToastContext.tsx: the messages on the screen, and the timers that take them away.
pub mod Lifetime
use micro_blog.Base.{
  ◌≡◌, refl, sym, ◌∙◌, ◌⊎◌, inl, inr, ℕ, suc, ◌+◌, ◌≤◌, ◌<◌, Text, nat_eq, ◌==◌, ==_iff, ==_refl,
  Bool, true, false, not, ◌&&◌, List, [], ◌∷◌, ◌++◌, arith, filter, any, All, All-append,
  All-filter, All-imp, leb, Bool-cases, if◌then◌else◌,
}
use micro_blog.Sql.Laws.{any-append}

pub data ToastType : Type 0 where
  info : ToastType
  success : ToastType
  error : ToastType

pub record ToastItem : Type 0 where
  pub id : ℕ
  pub message : Text
  pub kind : ToastType

-- A call of `removeToast` that `setTimeout` has put off.
pub record Timer : Type 0 where
  pub due : ℕ
  pub id : ℕ

pub record Toasts : Type 0 where
  pub toasts : List ToastItem
  pub next_id : ℕ
  pub timers : List Timer

abbrev pub no_toasts : Toasts
no_toasts = record { toasts = []; next_id = 0; timers = [] }

-- What happens to the provider: `toast` at some time, `removeToast`, and that the clock has got to a time.
pub data ToastEvent : Type 0 where
  toast : (now : ℕ) (message : Text) (kind : ToastType) → ToastEvent
  remove_toast : (id : ℕ) → ToastEvent
  clock : (now : ℕ) → ToastEvent

abbrev pub lifetime : ℕ
lifetime = 4000

abbrev pub without_toast : ℕ → List ToastItem → List ToastItem
without_toast id toasts = filter (λ t. not (t.id == id)) toasts

-- The timers that are due take their toasts away, one after the other.
abbrev pub fire : ℕ → List Timer → List ToastItem → List ToastItem
fire now [] toasts = toasts
fire now (t ∷ timers) toasts =
    fire now timers (if leb t.due now then without_toast t.id toasts else toasts)

unfoldable pub step : ToastEvent → Toasts → Toasts
step (toast now message kind) s = record {
  toasts = s.toasts ++ record { id = s.next_id; message = message; kind = kind } ∷ [];
  next_id = suc s.next_id;
  timers = s.timers ++ record { due = now + lifetime; id = s.next_id } ∷ [];
}
step (remove_toast id) s = record s { toasts = without_toast id s.toasts }
step (clock now) s = record s {
  toasts = fire now s.timers s.toasts;
  timers = filter (λ t. not (leb t.due now)) s.timers;
}

unfoldable pub run : List ToastEvent → Toasts → Toasts
unfolding step
run [] s = s
run (e ∷ rest) s = run rest (step e s)

abbrev pub is_shown : ℕ → Toasts → Bool
is_shown id s = any (λ t. t.id == id) s.toasts

-- Does the event take away the toast `id`, which is due to go at `due`?
abbrev pub takes_away : ℕ → ℕ → ToastEvent → Bool
takes_away due id (toast now message kind) = false
takes_away due id (remove_toast j) = j == id
takes_away due id (clock now) = leb due now
