-- ===== src/Exec/Inversion.antt =====
-- A chain of steps that returned: each of its steps returned.
use uni_mail.Common.{◌≡◌, refl, Option, none, some}
use uni_mail.Error.{Outcome, ok, err, panic, map_err}
use uni_mail.Exec.{World, Exec, attempt, caught, continue, ◌>>=◌, or_error}

continue-eq-ok :
    {E A B : Type 0} (r : Outcome E A) (f : A → Exec E B) (w : World) {b : B}
    → (continue r f w).0 ≡ ok b
    → (a : A) × (r ≡ ok a) × ((f a w).0 ≡ ok b)
continue-eq-ok (ok a) f w h = (a, refl, h)
continue-eq-ok (err e) f w h = cc
continue-eq-ok (panic m) f w h = cc

pub >>=-eq-ok :
    {E A B : Type 0} (m : Exec E A) (f : A → Exec E B) (w : World) {b : B}
    → ((m >>= f) w).0 ≡ ok b
    → (a : A) × ((m w).0 ≡ ok a) × ((f a (m w).1).0 ≡ ok b)
>>=-eq-ok m f w h = continue-eq-ok (m w).0 f (m w).1 h

-- The state behind a chain whose first step returned.
pub >>=-state :
    {E A B : Type 0} (m : Exec E A) (f : A → Exec E B) (w : World) {a : A}
    → (m w).0 ≡ ok a
    → (m >>= f) w ≡ f a (m w).1
>>=-state m f w h = rw h refl

-- The same, with the state that the first step leaves to the others.
pub >>=-run :
    {E A B : Type 0} (m : Exec E A) (f : A → Exec E B) (w : World) {b : B}
    → ((m >>= f) w).0 ≡ ok b
    → (a : A) × ((m w).0 ≡ ok a) × ((m >>= f) w ≡ f a (m w).1) × ((f a (m w).1).0 ≡ ok b)
>>=-run m f w h =
    let (a, returned, rest) = >>=-eq-ok m f w h in (a, returned, >>=-state m f w returned, rest)

pub or_error-eq-ok :
    {E A : Type 0} (o : Option A) (e : E) (w : World) {a : A}
    → (or_error o e w).0 ≡ ok a
    → o ≡ some a
or_error-eq-ok none e w h = cc
or_error-eq-ok (some a) e w h = cc

-- A chain that begins with `ok_or_else`.
pub or_error-run :
    {E A B : Type 0} (o : Option A) (e : E) (f : A → Exec E B) (w : World) {b : B}
    → ((or_error o e >>= f) w).0 ≡ ok b
    → (a : A) × (o ≡ some a) × ((or_error o e >>= f) w ≡ f a w) × ((f a w).0 ≡ ok b)
or_error-run none e f w h = cc
or_error-run (some a) e f w h = (a, refl, refl, h)

-- A chain that begins by matching on a result, which was then no panic.
attempt-continue :
    {E F A B : Type 0} (r : Outcome E A) (f : Outcome E A → Exec F B) (w : World) {b : B}
    → (continue (caught r) f w).0 ≡ ok b
    → (continue (caught r) f w ≡ f r w) × ((f r w).0 ≡ ok b)
attempt-continue (ok a) f w h = (refl, h)
attempt-continue (err e) f w h = (refl, h)
attempt-continue (panic m) f w h = cc

pub attempt-run :
    {E F A B : Type 0} (m : Exec E A) (f : Outcome E A → Exec F B) (w : World) {b : B}
    → ((attempt m >>= f) w).0 ≡ ok b
    → ((attempt m >>= f) w ≡ f (m w).0 (m w).1) × ((f (m w).0 (m w).1).0 ≡ ok b)
attempt-run m f w h = attempt-continue (m w).0 f (m w).1 h

caught-eq-ok : {E F A : Type 0} (r s : Outcome E A) → caught {F = F} r ≡ ok s → r ≡ s
caught-eq-ok (ok a) s h = cc
caught-eq-ok (err e) s h = cc
caught-eq-ok (panic text) s h = cc

-- What a match on a result sees is the result.
pub attempt-eq-ok :
    {E F A : Type 0} (m : Exec E A) (w : World) {r : Outcome E A}
    → (attempt {F = F} m w).0 ≡ ok r
    → (m w).0 ≡ r
attempt-eq-ok m w {r} h = caught-eq-ok (m w).0 r h

continue_assoc :
    {E A B C : Type 0} (r : Outcome E A) (f : A → Exec E B) (g : B → Exec E C) (w : World)
    → (let (s, v) = continue r f w in continue s g v) ≡ continue r (λ a. f a >>= g) w
continue_assoc (ok a) f g w = refl
continue_assoc (err e) f g w = refl
continue_assoc (panic m) f g w = refl

pub >>=-assoc :
    {E A B C : Type 0} (m : Exec E A) (f : A → Exec E B) (g : B → Exec E C) (w : World)
    → ((m >>= f) >>= g) w ≡ (m >>= λ a. f a >>= g) w
>>=-assoc m f g w = continue_assoc (m w).0 f g (m w).1

pub map_err-eq-ok :
    {E F A : Type 0} (f : E → F) (r : Outcome E A) {a : A} → map_err f r ≡ ok a → r ≡ ok a
map_err-eq-ok f (ok a) h = cc
map_err-eq-ok f (err e) h = cc
map_err-eq-ok f (panic text) h = cc
