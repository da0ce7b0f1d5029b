-- ===== src/Exec/Keeps.antt =====
-- Invariants of the database: one rule for each way to build a computation.
use uni_mail.Common.{◌≡◌, refl, ℕ, String, Bool, true, false, Option, none, some, if◌then◌else◌}
use uni_mail.Error.{Outcome, ok, err, panic}
use uni_mail.Exec.{
  World, Database, Exec, SqlError, continue, pure, fail, crash, lift, attempt, on_error, expect,
  ignore, or_error, ask, request, reads, writes, unless_fault, statement, lock, ◌>>=◌,
}
use uni_mail.Host.{Host, Request}

-- The computation keeps the invariant, whether it returns, fails or panics.
pub record Keeps (P : Database → Type 0) {E A : Type 0} (m : Exec E A) : Type 0 where
  pub at : (w : World) → P w.db → P (m w).1.db

-- The computation leaves the property behind when it starts in this state.
pub record KeepsAt (P : Database → Type 0) {E A : Type 0} (w : World) (m : Exec E A) : Type 0 where
  pub at : P (m w).1.db

module _ {P : Database → Type 0} where
  pub Keeps-pure : {E A : Type 0} (a : A) → Keeps P (pure {E = E} a)
  Keeps-pure a = record { at = λ w h. h }

  pub Keeps-fail : {E A : Type 0} (e : E) → Keeps P (fail {A = A} e)
  Keeps-fail e = record { at = λ w h. h }

  pub Keeps-crash : {E A : Type 0} (text : String) → Keeps P (crash {E = E} {A = A} text)
  Keeps-crash text = record { at = λ w h. h }

  pub Keeps-lift : {E A : Type 0} (r : Outcome E A) → Keeps P (lift r)
  Keeps-lift r = record { at = λ w h. h }

  pub Keeps-ask : {E A : Type 0} (f : ℕ → A) → Keeps P (ask {E = E} f)
  Keeps-ask f = record { at = λ w h. h }

  pub Keeps-request : {E A : Type 0} (r : Request) (f : ℕ → A) → Keeps P (request {E = E} r f)
  Keeps-request r f = record { at = λ w h. h }

  pub Keeps-reads : {E A : Type 0} (f : Database → A) → Keeps P (reads {E = E} f)
  Keeps-reads f = record { at = λ w h. h }

  pub Keeps-writes :
      {E : Type 0} (f : Database → Database)
      → ((db : Database) → P db → P (f db))
      → Keeps P (writes {E = E} f)
  Keeps-writes f h = record { at = λ w k. h w.db k }

  pub Keeps-or_error : {E A : Type 0} (o : Option A) (e : E) → Keeps P (or_error o e)
  Keeps-or_error none e = record { at = λ w h. h }
  Keeps-or_error (some a) e = record { at = λ w h. h }

  pub Keeps-on_error :
      {E F A : Type 0} (f : E → F) (m : Exec E A) → Keeps P m → Keeps P (on_error f m)
  Keeps-on_error f m h = record { at = h.at }

  pub Keeps-attempt : {E F A : Type 0} (m : Exec E A) → Keeps P m → Keeps P (attempt {F = F} m)
  Keeps-attempt m h = record { at = h.at }

  pub Keeps-expect :
      {E F A : Type 0} (text : String) (m : Exec E A) → Keeps P m → Keeps P (expect {F = F} text m)
  Keeps-expect text m h = record { at = h.at }

  pub Keeps-if :
      {E A : Type 0} (b : Bool) (m n : Exec E A)
      → Keeps P m
      → Keeps P n
      → Keeps P (if b then m else n)
  Keeps-if true m n h k = h
  Keeps-if false m n h k = k

  continue_db :
      {E A B : Type 0} (r : Outcome E A) (f : A → Exec E B) (w : World)
      → ((a : A) → Keeps P (f a))
      → P w.db
      → P (continue r f w).1.db
  continue_db (ok a) f w k h = (k a).at w h
  continue_db (err e) f w k h = h
  continue_db (panic text) f w k h = h

  pub Keeps-bind :
      {E A B : Type 0} (m : Exec E A) (f : A → Exec E B)
      → Keeps P m
      → ((a : A) → Keeps P (f a))
      → Keeps P (m >>= f)
  Keeps-bind m f h k = record { at = λ w p. continue_db (m w).0 f (m w).1 k (h.at w p) }

  known_db :
      {E A B : Type 0} (r : Outcome E A) (f : A → Exec E B) (w : World)
      → P w.db
      → ((a : A) → r ≡ ok a → Keeps P (f a))
      → P (continue r f w).1.db
  known_db (ok a) f w h k = (k a refl).at w h
  known_db (err e) f w h k = h
  known_db (panic text) f w h k = h

  -- A chain from one state: what follows may rely on what its first step returned.
  pub KeepsAt-bind :
      {E A B : Type 0} (w : World) (m : Exec E A) (f : A → Exec E B)
      → KeepsAt P w m
      → ((a : A) → (m w).0 ≡ ok a → Keeps P (f a))
      → KeepsAt P w (m >>= f)
  KeepsAt-bind w m f h k = record { at = known_db (m w).0 f (m w).1 h.at k }

  chain_db :
      {E A B : Type 0} (r : Outcome E A) (f : A → Exec E B) (w : World)
      → P w.db
      → ((a : A) → r ≡ ok a → KeepsAt P w (f a))
      → P (continue r f w).1.db
  chain_db (ok a) f w h k = (k a refl).at
  chain_db (err e) f w h k = h
  chain_db (panic text) f w h k = h

  -- The same, where what follows is known only at the state that the first step leaves.
  pub KeepsAt-chain :
      {E A B : Type 0} (w : World) (m : Exec E A) (f : A → Exec E B)
      → KeepsAt P w m
      → ((a : A) → (m w).0 ≡ ok a → KeepsAt P (m w).1 (f a))
      → KeepsAt P w (m >>= f)
  KeepsAt-chain w m f h k = record { at = chain_db (m w).0 f (m w).1 h.at k }

  pub Keeps-KeepsAt : {E A : Type 0} (w : World) (m : Exec E A) → P w.db → Keeps P m → KeepsAt P w m
  Keeps-KeepsAt w m h k = record { at = k.at w h }

  pub KeepsAt-attempt :
      {E F A : Type 0} (w : World) (m : Exec E A) → KeepsAt P w m → KeepsAt P w (attempt {F = F} m)
  KeepsAt-attempt w m h = record { at = h.at }

  -- The same from every state that has the property.
  pub Keeps-bind_known :
      {E A B : Type 0} (m : Exec E A) (f : A → Exec E B)
      → Keeps P m
      → ((w : World) (a : A) → P w.db → (m w).0 ≡ ok a → Keeps P (f a))
      → Keeps P (m >>= f)
  Keeps-bind_known m f h k = record {
    at = λ w p. known_db (m w).0 f (m w).1 (h.at w p) (λ a e. k w a p e);
  }

  pub Keeps-ignore : {E F A : Type 0} (m : Exec E A) → Keeps P m → Keeps P (ignore {F = F} m)
  Keeps-ignore m h = Keeps-bind (attempt m) (λ _. pure tt) (Keeps-attempt m h) (λ _. Keeps-pure tt)

  unless_fault-Keeps :
      {A : Type 0} (fault : Option String) (m : Exec SqlError A)
      → Keeps P m
      → Keeps P (unless_fault fault m)
  unless_fault-Keeps none m h = h
  unless_fault-Keeps (some text) m h = Keeps-fail _

  pub Keeps-statement :
      {A : Type 0} (host : Host) (m : Exec SqlError A) → Keeps P m → Keeps P (statement host m)
  Keeps-statement host m h =
      Keeps-bind (ask host.sql_fault) (λ fault. unless_fault fault m) (Keeps-ask _)
        (λ fault. unless_fault-Keeps fault m h)

  pub Keeps-lock : Keeps P lock
  unfolding lock
  Keeps-lock = record { at = λ w h. h }

-- A computation that keeps two invariants keeps both at once.
pub Keeps-both :
    {P R : Database → Type 0} {E A : Type 0} (m : Exec E A)
    → Keeps P m
    → Keeps R m
    → Keeps (λ db. P db × R db) m
Keeps-both m h k = record { at = λ w (p, r). (h.at w p, k.at w r) }

pub ruleset keeps_rules = (
  Keeps-pure, Keeps-fail, Keeps-crash, Keeps-lift, Keeps-ask, Keeps-request, Keeps-reads,
  Keeps-or_error, Keeps-on_error, Keeps-attempt, Keeps-expect, Keeps-if, Keeps-bind, Keeps-ignore,
  Keeps-statement, Keeps-lock,
)
