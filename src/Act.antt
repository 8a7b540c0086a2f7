-- ===== src/Act.antt =====
-- Fallible code over a mutable state: what was written before an error stays written. An error is
-- its message, `fmt.Errorf("...: %w", err)` puts a text in front of it, and a Go panic is a result
-- of its own, which no code of the repository turns back into an error.
use libvirt_volume_provision.Base.{◌++◌, ◌≡◌, refl, subst}
use libvirt_volume_provision.Text.{Text}

pub data Result {ℓ} (A : Type ℓ) : Type ℓ where
  ok : A → Result A
  err : Text → Result A
  panicked : Result A

abbrev pub Act {ℓ} : Type ℓ → Type ℓ → Type ℓ
Act S A = S → Result A × S

-- The message of a wrapped error.
abbrev pub prefixed {ℓ} : {A : Type ℓ} → Text → Result A → Result A
prefixed e (ok a) = ok a
prefixed e (err m) = err (e ++ m)
prefixed e panicked = panicked

module _ {ℓ} {S A : Type ℓ} where
  abbrev pub pure : A → Act S A
  pure a s = (ok a, s)

  abbrev pub fail : Text → Act S A
  fail e s = (err e, s)

  abbrev pub lift : Result A → Act S A
  lift r s = (r, s)

  abbrev pub gets : (S → A) → Act S A
  gets f s = (ok (f s), s)

  -- if err != nil { return fmt.Errorf("...: %w", err) }
  abbrev pub wrap : Text → Act S A → Act S A
  wrap e m s = let (r, s') = m s in (prefixed e r, s')

module _ {ℓ} {S A B : Type ℓ} where
  abbrev pub continue : Result A → (A → Act S B) → Act S B
  continue (ok a) f s = f a s
  continue (err e) f s = (err e, s)
  continue panicked f s = (panicked, s)

  infixl 10 ◌>>=◌ ◌>>◌
  abbrev pub ◌>>=◌ : Act S A → (A → Act S B) → Act S B
  ◌>>=◌ m f s = let (r, s') = m s in continue r f s'

  abbrev pub ◌>>◌ : Act S A → Act S B → Act S B
  m >> n = m >>= λ _. n

abbrev pub modify {ℓ} : {S : Type ℓ} → (S → S) → Act S (Unit {ℓ})
modify f s = (ok tt, f s)

-- A pure step leaves the state alone.
pub state-continue-lift {ℓ} :
    {S A B : Type ℓ} (r : Result A) (f : A → Result B) (s : S)
    → (continue {S = S} r (λ a. lift (f a)) s).1 ≡ s
state-continue-lift (ok a) f s = refl
state-continue-lift (err e) f s = refl
state-continue-lift panicked f s = refl

-- A wrapped error is an error.
pub prefixed-eq_ok {ℓ} :
    {A : Type ℓ} (e : Text) (r : Result A) {a : A} → prefixed e r ≡ ok a → r ≡ ok a
prefixed-eq_ok e (ok x) h = h
prefixed-eq_ok e (err m) h = cc
prefixed-eq_ok e panicked h = cc

-- A chain whose result is a success has gone on with a value, and is what followed.
module _ {ℓ} {S A B : Type ℓ} where
  pub continue_ok :
      (k : A → Act S B) (x : Result A × S) {b : B}
      → (continue x.0 k x.1).0 ≡ ok b
      → (a : A) × (x.0 ≡ ok a) × (continue x.0 k x.1 ≡ k a x.1)
  continue_ok k (ok a, s) e = (a, refl, refl)
  continue_ok k (err m, s) e = cc
  continue_ok k (panicked, s) e = cc

  pub continue-prefixed :
      (what : Text) (k : A → Act S B) (x : Result A × S) {b : B}
      → (continue (prefixed what x.0) k x.1).0 ≡ ok b
      → (a : A) × (x.0 ≡ ok a) × (continue (prefixed what x.0) k x.1 ≡ k a x.1)
  continue-prefixed what k (ok a, s) e = (a, refl, refl)
  continue-prefixed what k (err m, s) e = cc
  continue-prefixed what k (panicked, s) e = cc

  -- What the first part leaves, and every continuation keeps, the chain leaves.
  pub continue-rule {κ} :
      (P : S → Type κ) (k : A → Act S B) (r : Result A) (s : S)
      → P s
      → ((a : A) (t : S) → P t → P (k a t).1)
      → P (continue r k s).1
  continue-rule P k (ok a) s h keep = keep a s h
  continue-rule P k (err m) s h keep = h
  continue-rule P k panicked s h keep = h

-- A predicate of the value and the state that a success has; nothing is said of an error.
abbrev pub OnOk {ℓ κ} : {S B : Type ℓ} → (B → S → Type κ) → Result B × S → Type κ
OnOk P (ok b, s) = P b s
OnOk P (err m, s) = Unit
OnOk P (panicked, s) = Unit

pub ok_inj {ℓ} : {A : Type ℓ} (a b : A) → ok a ≡ ok b → a ≡ b
ok_inj a b e = cc

pub of_OnOk {ℓ κ} :
    {S B : Type ℓ} (P : B → S → Type κ) (x : Result B × S) (b : B) → OnOk P x → x.0 ≡ ok b → P b x.1
of_OnOk P (ok b', s) b h e = subst (λ x. P x s) (ok_inj b' b e) h
of_OnOk P (err m, s) b h e = cc
of_OnOk P (panicked, s) b h e = cc

pub continue-OnOk {ℓ κ} :
    {S A B : Type ℓ} (P : B → S → Type κ) (what : Text) (k : A → Act S B) (x : Result A × S)
    → ((a : A) → x.0 ≡ ok a → OnOk P (k a x.1))
    → OnOk P (continue (prefixed what x.0) k x.1)
continue-OnOk P what k (ok a, s) h = h a refl
continue-OnOk P what k (err m, s) h = tt
continue-OnOk P what k (panicked, s) h = tt

-- A chain whose steps all lead to what is said of its successes.
pub then-OnOk {ℓ κ} :
    {S A B : Type ℓ} (P : B → S → Type κ) (k : A → Act S B) (x : Result A × S)
    → ((a : A) → x.0 ≡ ok a → OnOk P (k a x.1))
    → OnOk P (continue x.0 k x.1)
then-OnOk P k (ok a, s) h = h a refl
then-OnOk P k (err m, s) h = tt
then-OnOk P k (panicked, s) h = tt
