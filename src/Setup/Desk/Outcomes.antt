-- ===== src/Setup/Desk/Outcomes.antt =====
-- __init__.py, the setup: the steps that a sequence went through when it ended with a value.
use aap_hermes.Prelude.{String, ◌≡◌, ◌∙◌, refl, arith, Bool, Option, none, some}
use aap_hermes.Setup.Desk.{
  Outside, Desk, Action, Result, ok, raised, unfinished, pure, raise, or_raise, lift, or_none, ask,
  ask_yes_no, next, ◌>>=◌,
}

module _ {O : Outside} where
  next-eq-ok :
      {A B : Type 0} (f : A → Action O B) (x : Result A) (d : Desk O) (b : B)
      → (next f x d).0 ≡ ok b
      → (a : A) × (x ≡ ok a) × ((f a d).0 ≡ ok b)
  next-eq-ok f (ok a) d b h = (a, refl, h)
  next-eq-ok f raised d b h = absurd (ground (arith, h))
  next-eq-ok f unfinished d b h = absurd (ground (arith, h))

  pub bind-eq-ok :
      {A B : Type 0} (m : Action O A) (f : A → Action O B) (d : Desk O) (b : B)
      → ((m >>= f) d).0 ≡ ok b
      → (a : A) × ((m d).0 ≡ ok a) × ((f a (m d).1).0 ≡ ok b)
  unfolding ◌>>=◌
  bind-eq-ok m f d b h = next-eq-ok f (m d).0 (m d).1 b h

  pub lift-eq-ok :
      {A : Type 0} (f : O.State → A × O.State) (d : Desk O) (a : A)
      → (lift f d).0 ≡ ok a
      → (f d.outside).0 ≡ a
  unfolding lift
  lift-eq-ok f d a h = ground (arith, h)

  pub pure-eq-ok : {A : Type 0} (a b : A) (d : Desk O) → (pure {O = O} a d).0 ≡ ok b → a ≡ b
  unfolding pure
  pure-eq-ok a b d h = ground (arith, h)

  pub or_none-eq-ok :
      {A B : Type 0} (o : Option A) (f : A → Action O (Option B)) (d : Desk O) (b : B)
      → (or_none o f d).0 ≡ ok (some b)
      → (a : A) × (o ≡ some a) × ((f a d).0 ≡ ok (some b))
  unfolding or_none pure
  or_none-eq-ok none f d b h = absurd (ground (arith, h))
  or_none-eq-ok (some a) f d b h = (a, refl, h)

  pub or_raise-eq-ok :
      {A : Type 0} (o : Option A) (d : Desk O) (a : A)
      → (or_raise {O = O} o d).0 ≡ ok a
      → o ≡ some a
  unfolding or_raise pure raise
  or_raise-eq-ok none d a h = absurd (ground (arith, h))
  or_raise-eq-ok (some b) d a h = ground (arith, h)

  pub ask-eq-ok :
      (question def a : String) (d : Desk O)
      → (ask question def d).0 ≡ ok a
      → (O.prompt question def d.outside).0 ≡ some a
  unfolding ask
  ask-eq-ok question def a d h =
      let (o, answered_so, h1) = bind-eq-ok _ _ d a h in
      lift-eq-ok _ d o answered_so ∙ or_raise-eq-ok o _ a h1

  pub ask_yes_no-eq-ok :
      (question : String) (def b : Bool) (d : Desk O)
      → (ask_yes_no question def d).0 ≡ ok b
      → (O.prompt_yes_no question def d.outside).0 ≡ some b
  unfolding ask_yes_no
  ask_yes_no-eq-ok question def b d h =
      let (o, answered_so, h1) = bind-eq-ok _ _ d b h in
      lift-eq-ok _ d o answered_so ∙ or_raise-eq-ok o _ b h1

  outside-or_raise :
      {A : Type 0} (o : Option A) (d : Desk O) → (or_raise {O = O} o d).1.outside ≡ d.outside
  unfolding or_raise pure raise
  outside-or_raise none d = refl
  outside-or_raise (some a) d = refl

  pub outside-ask_yes_no :
      (question : String) (def : Bool) (d : Desk O)
      → (ask_yes_no question def d).1.outside ≡ (O.prompt_yes_no question def d.outside).1
  unfolding ask_yes_no ◌>>=◌ lift
  outside-ask_yes_no question def d = outside-or_raise (O.prompt_yes_no question def d.outside).0 _
