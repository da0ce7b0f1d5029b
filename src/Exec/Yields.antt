-- ===== src/Exec/Yields.antt =====
-- What is known of the values that a computation returns: one rule for each way to build one.
use mathlib.Core.Path.{subst}
use uni_mail.Common.{◌≡◌, refl}
use uni_mail.Error.{Outcome, ok, err, panic}
use uni_mail.Exec.{World, Exec, ◌>>=◌, pure, continue}

-- Whatever a computation returns has a property.
pub record Yields {E A : Type 0} (P : A → Type 0) (m : Exec E A) : Type 0 where
  pub at : (w : World) (a : A) → (m w).0 ≡ ok a → P a

pub pure-Yields : {E A : Type 0} (P : A → Type 0) (a : A) → P a → Yields P (pure {E = E} a)
pure-Yields P a h = record { at = λ w b e. let same : a ≡ b = cc in subst P same h }

continue-Yields :
    {E A B : Type 0} {Q : A → Type 0} {P : B → Type 0} (r : Outcome E A) (f : A → Exec E B)
    (w : World) (b : B)
    → ((a : A) → r ≡ ok a → Q a)
    → ((a : A) → Q a → Yields P (f a))
    → (continue r f w).0 ≡ ok b
    → P b
continue-Yields (ok a) f w b q k h = (k a (q a refl)).at w b h
continue-Yields (err e) f w b q k h = cc
continue-Yields (panic text) f w b q k h = cc

-- A chain, whose first part may have a property of its own.
pub chain-Yields :
    {E A B : Type 0} (Q : A → Type 0) {P : B → Type 0} (m : Exec E A) (f : A → Exec E B)
    → Yields Q m
    → ((a : A) → Q a → Yields P (f a))
    → Yields P (m >>= f)
chain-Yields Q m f q k = record { at = λ w b. continue-Yields (m w).0 f (m w).1 b (q.at w) k }

pub bind-Yields :
    {E A B : Type 0} {P : B → Type 0} (m : Exec E A) (f : A → Exec E B)
    → ((a : A) → Yields P (f a))
    → Yields P (m >>= f)
bind-Yields m f k = record {
  at = λ w b. continue-Yields {Q = λ _. Unit} (m w).0 f (m w).1 b (λ a e. tt) (λ a _. k a);
}

-- A computation of which nothing is known.
pub any-Yields : {E A : Type 0} (m : Exec E A) → Yields (λ _. Unit {0}) m
any-Yields m = record { at = λ w a e. tt }
