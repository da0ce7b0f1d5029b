-- ===== src/Exec/Returns.antt =====
-- Computations that return, with a value or an error, and leave the database's lock free: one rule
-- for each way to build a computation.
use uni_mail.Common.{
  ℕ, ◌+◌, ◌≡◌, refl, String, Bool, true, false, Option, none, some, ◌∷◌, if◌then◌else◌,
}
use uni_mail.Error.{Outcome, ok, err, panic, map_err}
use uni_mail.Exec.{
  World, Database, Exec, SqlError, continue, caught, pure, fail, lift, attempt, on_error, expect,
  ignore, or_error, ask, request, reads, writes, unless_fault, statement, lock, ◌>>=◌,
}
use uni_mail.Exec.Calm.{NoPanic, IsCalm, run_calm}
use uni_mail.Exec.Keeps.{Keeps}
use uni_mail.Host.{Host, Request}

-- No holder of the lock has panicked.
abbrev pub IsFree : Database → Type 0
IsFree db = db.poisoned ≡ false

-- Where the lock is free, the computation does not panic, and the lock stays free.
pub record Returns {E A : Type 0} (m : Exec E A) : Type 0 where
  pub returns : (w : World) → IsFree w.db → NoPanic (m w).0
  pub frees : (w : World) → IsFree w.db → IsFree (m w).1.db

pub Returns-pure : {E A : Type 0} (a : A) → Returns (pure {E = E} a)
Returns-pure a = record { returns = λ w h. tt; frees = λ w h. h }

pub Returns-fail : {E A : Type 0} (e : E) → Returns (fail {A = A} e)
Returns-fail e = record { returns = λ w h. tt; frees = λ w h. h }

pub Returns-lift : {E A : Type 0} (r : Outcome E A) → NoPanic r → Returns (lift r)
Returns-lift r k = record { returns = λ w h. k; frees = λ w h. h }

NoPanic-map_err : {E F A : Type 0} (f : E → F) (r : Outcome E A) → NoPanic r → NoPanic (map_err f r)
NoPanic-map_err f (ok a) h = tt
NoPanic-map_err f (err e) h = tt
NoPanic-map_err f (panic text) h = h

NoPanic-caught :
    {E A : Type 0} (F : Type 0) (r : Outcome E A) → NoPanic r → NoPanic (caught {F = F} r)
NoPanic-caught F (ok a) h = tt
NoPanic-caught F (err e) h = tt
NoPanic-caught F (panic text) h = h

pub Returns-lift_err :
    {E F A : Type 0} (f : E → F) (r : Outcome E A) → NoPanic r → Returns (lift (map_err f r))
Returns-lift_err f r h = Returns-lift _ (NoPanic-map_err f r h)

pub Returns-ask : {E A : Type 0} (f : ℕ → A) → Returns (ask {E = E} f)
Returns-ask f = record { returns = λ w h. tt; frees = λ w h. h }

pub Returns-reads : {E A : Type 0} (f : Database → A) → Returns (reads {E = E} f)
Returns-reads f = record { returns = λ w h. tt; frees = λ w h. h }

pub Returns-writes :
    {E : Type 0} (f : Database → Database)
    → ((db : Database) → IsFree db → IsFree (f db))
    → Returns (writes {E = E} f)
Returns-writes f k = record { returns = λ w h. tt; frees = λ w h. k w.db h }

pub Returns-or_error : {E A : Type 0} (o : Option A) (e : E) → Returns (or_error o e)
Returns-or_error none e = Returns-fail e
Returns-or_error (some a) e = Returns-pure a

pub Returns-on_error :
    {E F A : Type 0} (f : E → F) (m : Exec E A) → Returns m → Returns (on_error f m)
Returns-on_error f m h = record {
  returns = λ w k. NoPanic-map_err f (m w).0 (h.returns w k);
  frees = h.frees;
}

Returns-attempt :
    {E A : Type 0} (F : Type 0) (m : Exec E A) → Returns m → Returns (attempt {F = F} m)
Returns-attempt F m h = record {
  returns = λ w k. NoPanic-caught F (m w).0 (h.returns w k);
  frees = h.frees;
}

pub Returns-if :
    {E A : Type 0} (b : Bool) (m n : Exec E A)
    → Returns m
    → Returns n
    → Returns (if b then m else n)
Returns-if true m n h k = h
Returns-if false m n h k = k

continue-Returns :
    {E A B : Type 0} (r : Outcome E A) (f : A → Exec E B) (w : World)
    → IsFree w.db
    → NoPanic r
    → ((a : A) → r ≡ ok a → Returns (f a))
    → NoPanic (continue r f w).0 × IsFree (continue r f w).1.db
continue-Returns (ok a) f w free h k = ((k a refl).returns w free, (k a refl).frees w free)
continue-Returns (err e) f w free h k = (tt, free)
continue-Returns (panic text) f w free h k = absurd h

-- A chain whose second part may rely on what the first one returned.
pub Returns-bind_known :
    {E A B : Type 0} (m : Exec E A) (f : A → Exec E B)
    → Returns m
    → ((w : World) (a : A) → IsFree w.db → (m w).0 ≡ ok a → Returns (f a))
    → Returns (m >>= f)
Returns-bind_known m f h k = record {
  returns = λ w free.
      (continue-Returns (m w).0 f (m w).1 (h.frees w free) (h.returns w free) (λ a. k w a free)).0;
  frees = λ w free.
      (continue-Returns (m w).0 f (m w).1 (h.frees w free) (h.returns w free) (λ a. k w a free)).1;
}

pub Returns-bind :
    {E A B : Type 0} (m : Exec E A) (f : A → Exec E B)
    → Returns m
    → ((a : A) → Returns (f a))
    → Returns (m >>= f)
Returns-bind m f h k = Returns-bind_known m f h (λ w a free e. k a)

caught-inversion : {E F A : Type 0} (r s : Outcome E A) → caught {F = F} r ≡ ok s → NoPanic s
caught-inversion (ok a) (ok b) e = tt
caught-inversion (ok a) (err f) e = tt
caught-inversion (ok a) (panic text) e = cc
caught-inversion (err f) (ok b) e = tt
caught-inversion (err f) (err g) e = tt
caught-inversion (err f) (panic text) e = cc
caught-inversion (panic t) s e = cc

-- Matching on a result: it is a value or an error.
pub Returns-match :
    {E F A B : Type 0} (m : Exec E A) (f : Outcome E A → Exec F B)
    → Returns m
    → ((r : Outcome E A) → NoPanic r → Returns (f r))
    → Returns (attempt m >>= f)
Returns-match m f h k =
    Returns-bind_known (attempt m) f (Returns-attempt _ m h)
      (λ w r free e. k r (caught-inversion (m w).0 r e))

pub Returns-ignore : {E F A : Type 0} (m : Exec E A) → Returns m → Returns (ignore {F = F} m)
Returns-ignore m h = Returns-match m _ h (λ r k. Returns-pure tt)

-- A request whose answer is no panic.
pub Returns-request :
    {E F A B : Type 0} (r : Request) (f : ℕ → Outcome F A) (g : Outcome F A → Exec E B)
    → ((n : ℕ) → NoPanic (f n))
    → ((a : Outcome F A) → NoPanic a → Returns (g a))
    → Returns (request r f >>= g)
Returns-request r f g h k = record {
  returns = λ w free.
      (k (f w.answers) (h w.answers)).returns
        (record w { answers = w.answers + 1; requests = r ∷ w.requests }) free;
  frees = λ w free.
      (k (f w.answers) (h w.answers)).frees
        (record w { answers = w.answers + 1; requests = r ∷ w.requests }) free;
}

unless_fault-Returns :
    {A : Type 0} (fault : Option String) (m : Exec SqlError A)
    → Returns m
    → Returns (unless_fault fault m)
unless_fault-Returns none m h = h
unless_fault-Returns (some text) m h = Returns-fail _

pub Returns-statement :
    {A : Type 0} (host : Host) (m : Exec SqlError A) → Returns m → Returns (statement host m)
Returns-statement host m h =
    Returns-bind (ask host.sql_fault) (λ fault. unless_fault fault m) (Returns-ask _)
      (λ fault. unless_fault-Returns fault m h)

pub Returns-lock : Returns lock
unfolding lock
Returns-lock = record { returns = λ w h. rw h tt; frees = λ w h. h }

-- `expect` on a free lock, and on what cannot fail.
pub Returns-expect :
    {E F A : Type 0} (text : String) (m : Exec E A)
    → ((w : World) → IsFree w.db → (a : A) × ((m w).0 ≡ ok a))
    → ((w : World) → IsFree w.db → IsFree (m w).1.db)
    → Returns (expect {F = F} text m)
Returns-expect text m h k = record {
  returns = λ w free. let (a, e) = h w free in rw e tt;
  frees = k;
}

-- What never panics and keeps the lock free returns.
pub IsCalm-Returns : {E A : Type 0} (m : Exec E A) → IsCalm m → Keeps IsFree m → Returns m
IsCalm-Returns m h k = record { returns = λ w free. run_calm m h w; frees = k.at }

pub ruleset returns_rules = (
  Returns-pure, Returns-fail, Returns-lift_err, Returns-ask, Returns-reads, Returns-or_error,
  Returns-on_error, Returns-match, Returns-if, Returns-bind, Returns-ignore, Returns-statement,
  Returns-lock,
)
