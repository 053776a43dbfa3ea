-- ===== src/Setup/Desk/Laws.antt =====
-- __init__.py, the setup: steps that leave the files alone, and steps that end.
use aap_hermes.Prelude.{
  ℕ, ◌≤◌, String, ◌≡◌, ◌≢◌, refl, ◌∙◌, arith, Bool, true, false, Option, none, some, if◌then◌else◌,
}
use aap_hermes.Prelude.Text.{code_eq}
use aap_hermes.Setup.Desk.{
  Outside, IsOutside, Identity, Desk, Action, Result, ok, raised, unfinished, pure, raise, or_raise,
  lift, or_none, ask, ask_yes_no, next, ◌>>=◌, ◌>>◌, save_env_value, write_identity,
}

pub code_eq-eq : (a b : ℕ) → code_eq a b ≡ true → a ≡ b
code_eq-eq a b h = ground (arith, h)

-- What holds of a step in sequence: by how its first part ended.
pub bind_elim :
    {O : Outside} {A B : Type 0} (Q : Result B × Desk O → Type 0) (m : Action O A)
    (f : A → Action O B) (d : Desk O)
    → ((a : A) → (m d).0 ≡ ok a → Q (f a (m d).1))
    → ((m d).0 ≡ raised → Q (raised, (m d).1))
    → ((m d).0 ≡ unfinished → Q (unfinished, (m d).1))
    → Q ((m >>= f) d)
unfolding ◌>>=◌
bind_elim {O} {A} {B} Q m f d p q r = go (m d).0 refl
  where
    go : (x : Result A) → (m d).0 ≡ x → Q (next f x (m d).1)
    go (ok a) e = p a e
    go raised e = q e
    go unfinished e = r e

module _ {O : Outside} where
  pub record Keeps {A : Type 0} (m : Action O A) : Type 0 where
    pub same : (d : Desk O) → (m d).1.files ≡ d.files

  pub bind-Keeps :
      {A B : Type 0} (m : Action O A) (f : A → Action O B)
      → Keeps m
      → ((a : A) → Keeps (f a))
      → Keeps (m >>= f)
  bind-Keeps m f k l = record {
    same = λ d.
        bind_elim (λ x. x.1.files ≡ d.files) m f d (λ a e. (l a).same (m d).1 ∙ k.same d)
          (λ e. k.same d) (λ e. k.same d);
  }

  pub lift-Keeps : {A : Type 0} (f : O.State → A × O.State) → Keeps (lift f)
  unfolding lift
  lift-Keeps f = record { same = λ d. refl }

  pub pure-Keeps : {A : Type 0} (a : A) → Keeps (pure a)
  unfolding pure
  pure-Keeps a = record { same = λ d. refl }

  pub raise-Keeps : {A : Type 0} → Keeps (raise {A = A})
  unfolding raise
  raise-Keeps = record { same = λ d. refl }

  pub or_raise-Keeps : {A : Type 0} (o : Option A) → Keeps (or_raise o)
  unfolding or_raise
  or_raise-Keeps none = raise-Keeps
  or_raise-Keeps (some a) = pure-Keeps a

  pub or_none-Keeps :
      {A B : Type 0} (o : Option A) (f : A → Action O (Option B))
      → ((a : A) → Keeps (f a))
      → Keeps (or_none o f)
  unfolding or_none
  or_none-Keeps none f k = pure-Keeps none
  or_none-Keeps (some a) f k = k a

  pub ask-Keeps : (question def : String) → Keeps (ask question def)
  unfolding ask
  ask-Keeps question def =
      bind-Keeps (lift (O.prompt question def)) or_raise (lift-Keeps (O.prompt question def))
        or_raise-Keeps

  pub ask_yes_no-Keeps : (question : String) (def : Bool) → Keeps (ask_yes_no question def)
  unfolding ask_yes_no
  ask_yes_no-Keeps question def =
      bind-Keeps (lift (O.prompt_yes_no question def)) or_raise
        (lift-Keeps (O.prompt_yes_no question def)) or_raise-Keeps

  pub if-Keeps :
      {A : Type 0} (b : Bool) (m n : Action O A) → Keeps m → Keeps n → Keeps (if b then m else n)
  if-Keeps true m n k l = k
  if-Keeps false m n k l = l

-- The steps that end, and use up input if at all.
module _ {O : Outside} (L : IsOutside O) where
  pub record IsCalmAt {A : Type 0} (d : Desk O) (x : Result A × Desk O) : Type 0 where
    pub left : L.left x.1.outside ≤ L.left d.outside
    pub ends : x.0 ≢ unfinished

  pub record Calm {A : Type 0} (m : Action O A) : Type 0 where
    pub at : (d : Desk O) → IsCalmAt d (m d)

  pub bind-Calm :
      {A B : Type 0} (m : Action O A) (f : A → Action O B)
      → Calm m
      → ((a : A) → Calm (f a))
      → Calm (m >>= f)
  bind-Calm m f k l = record {
    at = λ d.
        bind_elim (IsCalmAt d) m f d
          (λ a e. record {
            left = ground (arith, (k.at d).left, ((l a).at (m d).1).left);
            ends = ((l a).at (m d).1).ends;
          })
          (λ e. record { left = (k.at d).left; ends = λ h. absurd (ground (arith, h)) })
          (λ e. absurd ((k.at d).ends e));
  }

  pub then-Calm : {A B : Type 0} (m : Action O A) (k : Action O B) → Calm m → Calm k → Calm (m >> k)
  unfolding ◌>>◌
  then-Calm m k c l = bind-Calm m (λ a. k) c (λ a. l)

  pub lift-Calm :
      {A : Type 0} (f : O.State → A × O.State)
      → ((s : O.State) → L.left (f s).1 ≤ L.left s)
      → Calm (lift f)
  unfolding lift
  lift-Calm f h = record {
    at = λ d. record { left = h d.outside; ends = λ e. absurd (ground (arith, e)) };
  }

  pub pure-Calm : {A : Type 0} (a : A) → Calm (pure a)
  unfolding pure
  pure-Calm a = record {
    at = λ d. record { left = omega arith; ends = λ e. absurd (ground (arith, e)) };
  }

  pub raise-Calm : {A : Type 0} → Calm (raise {A = A})
  unfolding raise
  raise-Calm = record {
    at = λ d. record { left = omega arith; ends = λ e. absurd (ground (arith, e)) };
  }

  pub or_raise-Calm : {A : Type 0} (o : Option A) → Calm (or_raise o)
  unfolding or_raise
  or_raise-Calm none = raise-Calm
  or_raise-Calm (some a) = pure-Calm a

  pub or_none-Calm :
      {A B : Type 0} (o : Option A) (f : A → Action O (Option B))
      → ((a : A) → Calm (f a))
      → Calm (or_none o f)
  unfolding or_none
  or_none-Calm none f k = pure-Calm none
  or_none-Calm (some a) f k = k a

  pub if-Calm :
      {A : Type 0} (b : Bool) (m n : Action O A) → Calm m → Calm n → Calm (if b then m else n)
  if-Calm true m n k l = k
  if-Calm false m n k l = l

  pub ask-Calm : (question def : String) → Calm (ask question def)
  unfolding ask
  ask-Calm question def =
      bind-Calm (lift (O.prompt question def)) or_raise
        (lift-Calm (O.prompt question def) (L.prompt_le question def)) or_raise-Calm

  pub ask_yes_no-Calm : (question : String) (def : Bool) → Calm (ask_yes_no question def)
  unfolding ask_yes_no
  ask_yes_no-Calm question def =
      bind-Calm (lift (O.prompt_yes_no question def)) or_raise
        (lift-Calm (O.prompt_yes_no question def) (L.prompt_yes_no_le question def)) or_raise-Calm

  pub save_env_value-Calm : (k v : String) → Calm (save_env_value k v)
  unfolding save_env_value
  save_env_value-Calm k v = record {
    at = λ d. record { left = omega arith; ends = λ e. absurd (ground (arith, e)) };
  }

  pub write_identity-Calm : (i : Identity) → Calm (write_identity i)
  unfolding write_identity
  write_identity-Calm i = record {
    at = λ d. record { left = omega arith; ends = λ e. absurd (ground (arith, e)) };
  }
