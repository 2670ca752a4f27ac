-- ===== src/Data/Db/Hoare.antt =====
-- Postconditions of database code, over the tables that it leaves: `Q` of a result, `E` after an
-- error.
use bakery_go.Common.{◌≡◌, refl, sym, ap, ◌∙◌, Bool, true, false, List, [], ◌∷◌, subst}
use bakery_go.Data.Db.{
  Tables, Db, Result, ok, err, M, and_then, statement, apply, exec, rollback, transaction,
}

abbrev value {ℓ} : {A : Type ℓ} → A → Result A → A
value a (ok b) = b
value a (err e) = a

pub ok_value {ℓ} : {A : Type ℓ} (a b : A) → ok a ≡ ok b → a ≡ b
ok_value {A} a b e = ap (value a) e

module _ {F P : Type 0} where
  abbrev pub Holds :
      {A : Type 0} → (A → Tables F P → Type 0) → (Tables F P → Type 0) → Result A × Db F P → Type 0
  Holds Q E (ok a, d) = Q a d.tables
  Holds Q E (err e, d) = E d.tables

  module _ {A : Type 0} (Q : A → Tables F P → Type 0) (E : Tables F P → Type 0) where
    pub Holds-mono :
        (Q' : A → Tables F P → Type 0) (E' : Tables F P → Type 0)
        → ((a : A) (t : Tables F P) → Q a t → Q' a t)
        → ((t : Tables F P) → E t → E' t)
        → (r : Result A × Db F P) → Holds Q E r
        → Holds Q' E' r
    Holds-mono Q' E' q e (ok a, d) h = q a d.tables h
    Holds-mono Q' E' q e (err x, d) h = e d.tables h

    -- The rule for a bind: the first part reaches a state from which the second one goes on.
    pub and_then-Holds :
        {B : Type 0} (Q' : B → Tables F P → Type 0) (E' : Tables F P → Type 0)
        (f : A → M (Db F P) B) (r : Result A × Db F P)
        → Holds Q E r
        → ((a : A) (d : Db F P) → Q a d.tables → Holds Q' E' (f a d))
        → ((t : Tables F P) → E t → E' t)
        → Holds Q' E' (and_then r f)
    and_then-Holds Q' E' f (ok a, d) h next stop = next a d h
    and_then-Holds Q' E' f (err x, d) h next stop = stop d.tables h

  -- A statement that only may fail leaves the tables alone.
  statement_faults :
      (fs : List Bool) (d : Db F P)
      → d.faults ≡ fs
      → Holds (λ _ t. t ≡ d.tables) (λ t. t ≡ d.tables) (statement d)
  unfolding statement
  statement_faults [] d e = rw e refl
  statement_faults (true ∷ fs) d e = rw e refl
  statement_faults (false ∷ fs) d e = rw e refl

  pub statement-Holds : (d : Db F P) → Holds (λ _ t. t ≡ d.tables) (λ t. t ≡ d.tables) (statement d)
  statement-Holds d = statement_faults d.faults d refl

  apply-Holds :
      {A : Type 0} (r : Result (A × Tables F P)) (d : Db F P)
      → Holds (λ a t. r ≡ ok (a, t)) (λ t. t ≡ d.tables) (apply r d)
  apply-Holds (ok (a, t)) d = refl
  apply-Holds (err e) d = refl

  -- A statement has its effect or none.
  pub exec-Holds :
      {A : Type 0} (f : Tables F P → Result (A × Tables F P)) (d : Db F P)
      → Holds (λ a t. f d.tables ≡ ok (a, t)) (λ t. t ≡ d.tables) (exec f d)
  unfolding exec
  exec-Holds f d =
      and_then-Holds (λ _ t. t ≡ d.tables) (λ t. t ≡ d.tables) (λ a t. f d.tables ≡ ok (a, t))
        (λ t. t ≡ d.tables) _ (statement d) (statement-Holds d)
        (λ _ d' e.
          Holds-mono (λ a t. f d'.tables ≡ ok (a, t)) (λ t. t ≡ d'.tables)
            (λ a t. f d.tables ≡ ok (a, t)) (λ t. t ≡ d.tables) (λ a t h. ap f (sym e) ∙ h)
            (λ t h. h ∙ e) (apply (f d'.tables) d') (apply-Holds (f d'.tables) d'))
        (λ _ e. e)

  rollback-Holds :
      {A : Type 0} (Q : A → Tables F P → Type 0) (E : Tables F P → Type 0) (t : Tables F P)
      (r : Result A × Db F P)
      → Holds Q E r
      → Holds Q (λ t'. t' ≡ t) (rollback t r)
  rollback-Holds Q E t (ok a, d) h = h
  rollback-Holds Q E t (err x, d) h = refl

  -- A transaction that ends in an error leaves the tables that it found.
  pub transaction-Holds :
      {A : Type 0} (Q : A → Tables F P → Type 0) (body : M (Db F P) A) (d : Db F P)
      → ((d' : Db F P) → d'.tables ≡ d.tables → Holds Q (λ _. Unit {0}) (body d'))
      → Holds Q (λ t. t ≡ d.tables) (transaction body d)
  unfolding transaction
  transaction-Holds Q body d h =
      rollback-Holds Q (λ _. Unit {0}) d.tables _
        (and_then-Holds (λ _ t. t ≡ d.tables) (λ t. t ≡ d.tables) Q (λ _. Unit {0}) _ (statement d)
          (statement-Holds d)
          (λ _ d' e.
            and_then-Holds Q (λ _. Unit {0}) Q (λ _. Unit {0}) _ (body d') (h d' e)
              (λ a d'' q.
                and_then-Holds (λ _ t. t ≡ d''.tables) (λ t. t ≡ d''.tables) Q (λ _. Unit {0}) _
                  (statement d'') (statement-Holds d'') (λ _ d3 e3. subst (Q a) (sym e3) q)
                  (λ _ _. tt))
              (λ _ _. tt))
          (λ _ _. tt))
