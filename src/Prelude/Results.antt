-- ===== src/Prelude/Results.antt =====
-- What throws: a result or the error thrown, with the rule for `await` in sequence.
use mathlib.Core.Path.{◌≡◌, refl}
use mathlib.Core.Bool.{Bool, true, false}
use mathlib.Core.Option.{Option, none, some}
use edupay_academico.Prelude.Tests.{if◌then◌else◌}

pub data Result {ℓ} (E A : Type ℓ) : Type ℓ where
  ok : A → Result E A
  err : E → Result E A

infixl 5 ◌>>=◌ ◌>>◌
abbrev pub ◌>>=◌ {ℓ} : {E A B : Type ℓ} → Result E A → (A → Result E B) → Result E B
ok a >>= f = f a
err e >>= f = err e

abbrev pub ◌>>◌ : {E B : Type 0} → Result E (Unit {0}) → Result E B → Result E B
m >> k = m >>= λ _. k

-- `if (!test) throw e`
abbrev pub require : {E : Type 0} → E → Bool → Result E (Unit {0})
require e true = ok tt
require e false = err e

-- `if (!value) throw e`
abbrev pub require_some {ℓ} : {E A : Type ℓ} → E → Option A → Result E A
require_some e none = err e
require_some e (some a) = ok a

pub ok-injective : {E A : Type 0} {a b : A} → ◌≡◌ {A = Result E A} (ok a) (ok b) → a ≡ b
ok-injective h = cc

pub bind-eq-ok {ℓ} :
    {E A B : Type ℓ} (m : Result E A) (f : A → Result E B) {b : B}
    → (m >>= f) ≡ ok b
    → (a : A) × (m ≡ ok a) × (f a ≡ ok b)
bind-eq-ok (ok a) f h = (a, refl, h)
bind-eq-ok (err e) f h = cc

pub require-eq-ok : {E : Type 0} (e : E) (b : Bool) {u : Unit {0}} → require e b ≡ ok u → b ≡ true
require-eq-ok e true h = refl
require-eq-ok e false h = cc

pub require_some-eq-ok {ℓ} :
    {E A : Type ℓ} (e : E) (o : Option A) {a : A} → require_some e o ≡ ok a → o ≡ some a
require_some-eq-ok e none h = cc
require_some-eq-ok e (some a) h = cc

-- `try { a = r } catch (e) { … }`, and what follows.
abbrev pub try_catch : {E A B : Type 0} → Result E A → (E → B) → (A → B) → B
try_catch (ok a) caught next = next a
try_catch (err e) caught next = caught e

pub try_catch-elim :
    {E A B : Type 0} (P : B → Type 0) (r : Result E A) (caught : E → B) (next : A → B)
    → ((e : E) → r ≡ err e → P (caught e))
    → ((a : A) → r ≡ ok a → P (next a))
    → P (try_catch r caught next)
try_catch-elim P (ok a) caught next h k = k a refl
try_catch-elim P (err e) caught next h k = h e refl

-- What holds of a result that is not thrown.
pub data IfOk {E A : Type 0} (P : A → Type 0) : Result E A → Type 0 where
  if_ok : {a : A} → P a → IfOk P (ok a)
  threw : {e : E} → IfOk P (err e)

pub bind-IfOk :
    {E A B : Type 0} {P : B → Type 0} (m : Result E A) {f : A → Result E B}
    → ((a : A) → m ≡ ok a → IfOk P (f a))
    → IfOk P (m >>= f)
bind-IfOk (ok a) k = k a refl
bind-IfOk (err e) k = threw

pub then-IfOk :
    {E A B : Type 0} {P : A → Type 0} {Q : B → Type 0} {m : Result E A} {f : A → Result E B}
    → IfOk P m
    → ((a : A) → P a → IfOk Q (f a))
    → IfOk Q (m >>= f)
then-IfOk (if_ok h) k = k _ h
then-IfOk threw k = threw

pub IfOk-imp :
    {E A : Type 0} {P Q : A → Type 0} {m : Result E A} → ((a : A) → P a → Q a) → IfOk P m → IfOk Q m
IfOk-imp f (if_ok h) = if_ok (f _ h)
IfOk-imp f threw = threw

pub if-IfOk :
    {E A : Type 0} {Q : A → Type 0} (b : Bool) {x y : Result E A}
    → (b ≡ true → IfOk Q x)
    → (b ≡ false → IfOk Q y)
    → IfOk Q (if b then x else y)
if-IfOk true h k = h refl
if-IfOk false h k = k refl
