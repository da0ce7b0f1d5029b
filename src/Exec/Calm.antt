-- ===== src/Exec/Calm.antt =====
-- Computations that never panic: what a chain of them, or a batch that matches on their results,
-- may rely on.
use uni_mail.Common.{ℕ, ◌≡◌, refl, String, Bool, true, false, Option, none, some, if◌then◌else◌}
use uni_mail.Error.{Outcome, ok, err, panic, map_err}
use uni_mail.Exec.{
  World, Database, Exec, pure, reads, continue, caught, ◌>>=◌, lift, on_error, or_error, ask,
  statement, SqlError, unless_fault, lock,
}
use uni_mail.Host.{Host}

abbrev pub NoPanic : {E A : Type 0} → Outcome E A → Type 0
NoPanic (ok a) = Unit
NoPanic (err e) = Unit
NoPanic (panic text) = ⊥

-- From whatever world it starts.
unfoldable pub IsCalm : {E A : Type 0} → Exec E A → Type 0
IsCalm m = (w : World) → NoPanic (m w).0

pub run_calm : {E A : Type 0} (m : Exec E A) → IsCalm m → (w : World) → NoPanic (m w).0
unfolding IsCalm
run_calm m h = h

-- A single step that never panics.
pub step-IsCalm : {E A : Type 0} (m : Exec E A) → ((w : World) → NoPanic (m w).0) → IsCalm m
unfolding IsCalm
step-IsCalm m h = h

pub pure-IsCalm : {A : Type 0} (E : Type 0) (a : A) → IsCalm (pure {E = E} a)
unfolding IsCalm
pure-IsCalm E a w = tt

pub ask-IsCalm : {A : Type 0} (E : Type 0) (f : ℕ → A) → IsCalm (ask {E = E} f)
unfolding IsCalm
ask-IsCalm E f w = tt

pub reads-IsCalm : {A : Type 0} (E : Type 0) (f : Database → A) → IsCalm (reads {E = E} f)
unfolding IsCalm
reads-IsCalm E f w = tt

pub result-IsCalm : {E A : Type 0} (r : Outcome E A) → NoPanic r → IsCalm (lift r)
unfolding IsCalm
result-IsCalm r h w = h

NoPanic-continue :
    {E A B : Type 0} (r : Outcome E A) (f : A → Exec E B) (w : World)
    → NoPanic r
    → ((a : A) → IsCalm (f a))
    → NoPanic (continue r f w).0
NoPanic-continue (ok a) f w h k = run_calm (f a) (k a) w
NoPanic-continue (err e) f w h k = tt
NoPanic-continue (panic text) f w h k = h

pub >>=-IsCalm :
    {E A B : Type 0} (m : Exec E A) (f : A → Exec E B)
    → IsCalm m
    → ((a : A) → IsCalm (f a))
    → IsCalm (m >>= f)
unfolding IsCalm
>>=-IsCalm m f h k w = NoPanic-continue (m w).0 f (m w).1 (h w) k

NoPanic-map_err : {E F A : Type 0} (f : E → F) (r : Outcome E A) → NoPanic r → NoPanic (map_err f r)
NoPanic-map_err f (ok a) h = tt
NoPanic-map_err f (err e) h = tt
NoPanic-map_err f (panic text) h = h

pub lift-IsCalm :
    {E F A : Type 0} (f : E → F) (r : Outcome E A) → NoPanic r → IsCalm (lift (map_err f r))
unfolding IsCalm
lift-IsCalm f r h w = NoPanic-map_err f r h

pub on_error-IsCalm : {E F A : Type 0} (f : E → F) (m : Exec E A) → IsCalm m → IsCalm (on_error f m)
unfolding IsCalm
on_error-IsCalm f m h w = NoPanic-map_err f (m w).0 (h w)

pub or_error-IsCalm : {E A : Type 0} (o : Option A) (e : E) → IsCalm (or_error o e)
unfolding IsCalm
or_error-IsCalm none e w = tt
or_error-IsCalm (some a) e w = tt

unless_fault-IsCalm :
    {A : Type 0} (fault : Option String) (m : Exec SqlError A)
    → IsCalm m
    → IsCalm (unless_fault fault m)
unfolding IsCalm
unless_fault-IsCalm none m h w = h w
unless_fault-IsCalm (some text) m h w = tt

pub statement-IsCalm :
    {A : Type 0} (host : Host) (m : Exec SqlError A) → IsCalm m → IsCalm (statement host m)
statement-IsCalm host m h =
    >>=-IsCalm (ask host.sql_fault) (λ fault. unless_fault fault m) (step-IsCalm _ (λ w. tt))
      (λ fault. unless_fault-IsCalm fault m h)

pub NoPanic-if :
    {E A : Type 0} (b : Bool) (r s : Outcome E A)
    → NoPanic r
    → NoPanic s
    → NoPanic (if b then r else s)
NoPanic-if true r s h g = h
NoPanic-if false r s h g = g

pub lock-IsCalm : IsCalm lock
unfolding IsCalm lock
lock-IsCalm w = NoPanic-if w.poisoned _ _ tt tt

-- Matching on a result that is no panic always goes on.
pub caught-NoPanic : {E F A : Type 0} (r : Outcome E A) → NoPanic r → caught {F = F} r ≡ ok r
caught-NoPanic (ok a) h = refl
caught-NoPanic (err e) h = refl
caught-NoPanic (panic text) h = absurd h
