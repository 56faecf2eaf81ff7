-- ===== src/Orm/Render/Lists.antt =====
-- Outputs in a row: the laws of `⊕`, and the loop that writes commas between.
use gotest.Common.{
  ℕ, ◌+◌, ◌≡◌, refl, ◌∙◌, ap, subst, Option, none, some, List, [], ◌∷◌, ◌++◌, true, append_assoc,
  append-nil, ltb, map, arith,
}
use gotest.Common.Text.{Text, codes}
use gotest.Orm.Meta.{Model, Error}
use gotest.Orm.Builder.{Resolved, Action, each}
use gotest.Orm.Render.{
  Out, out_text, ◌⊕◌, join_failure, comma_separated, Renders, Renders-skip, Renders-write,
  Renders->>,
}

module _ {V : Type 0} where
  assoc-join :
      (s : Text) (vs : List V) (e : Option Error) (t : Text) (ws : List V) (e' : Option Error)
      (c : Out V)
      → (join_failure s vs e (record { text = t; args = ws; failure = e' }) ⊕ c)
        ≡ join_failure s vs e (join_failure t ws e' c)
  unfolding ◌⊕◌
  assoc-join s vs none t ws none c = rw (append_assoc s t c.text, append_assoc vs ws c.args)
  assoc-join s vs none t ws (some x) c = refl
  assoc-join s vs (some x) t ws e' c = refl

  pub ⊕_assoc : (a b c : Out V) → ((a ⊕ b) ⊕ c) ≡ (a ⊕ (b ⊕ c))
  unfolding ◌⊕◌
  ⊕_assoc a b c = assoc-join a.text a.args a.failure b.text b.args b.failure c

  nil-join :
      (s : Text) (vs : List V) (e : Option Error)
      → join_failure s vs e (out_text []) ≡ record { text = s; args = vs; failure = e }
  nil-join s vs none = rw (append-nil s, append-nil vs)
  nil-join s vs (some e) = refl

  pub ⊕-nil : (a : Out V) → (a ⊕ out_text []) ≡ a
  unfolding ◌⊕◌
  ⊕-nil a = nil-join a.text a.args a.failure

  pub nil-⊕ : (a : Out V) → (out_text [] ⊕ a) ≡ a
  unfolding ◌⊕◌
  nil-⊕ a = refl

  pub text-⊕ : (s t : Text) → (◌⊕◌ {V = V} (out_text s) (out_text t)) ≡ out_text (s ++ t)
  unfolding ◌⊕◌
  text-⊕ s t = refl

module _ {E V : Type 0} (q : ℕ) (m : Option Model) (r : E → Resolved) where
  pub Renders-eq : (f : Action E V) {o p : Out V} → o ≡ p → Renders q m r f o → Renders q m r f p
  Renders-eq f e h = subst (Renders q m r f) e h

  module _ {A : Type 0} (item : A → Action E V) (out : A → Out V)
      (h : (x : A) → Renders q m r (item x) (out x)) where
    abbrev rest_out : List A → Out V
    rest_out [] = out_text []
    rest_out (x ∷ xs) = out_text (codes ",") ⊕ comma_separated (map out (x ∷ xs))

    comma_rest : (x : A) (xs : List A) → (out x ⊕ rest_out xs) ≡ comma_separated (map out (x ∷ xs))
    unfolding comma_separated
    comma_rest x [] = ⊕-nil (out x)
    comma_rest x (y ∷ xs) = refl

    Renders-rest :
        (i : ℕ) (xs : List A) → ltb 0 i ≡ true → Renders q m r (each item i xs) (rest_out xs)
    unfolding each
    Renders-rest i [] p = Renders-skip q m r
    Renders-rest i (x ∷ xs) p =
        let step =
          Renders->> q m r (Renders->> q m r (Renders-write q m r (codes ",")) (h x))
            (Renders-rest (i + 1) xs (ground arith)) in
        rw p (
          Renders-eq _
            (⊕_assoc (out_text (codes ",")) (out x) (rest_out xs)
              ∙ ap (◌⊕◌ (out_text (codes ","))) (comma_rest x xs))
            step)

    -- The loop writes the items with commas between.
    pub Renders-each : (xs : List A) → Renders q m r (each item 0 xs) (comma_separated (map out xs))
    unfolding each comma_separated
    Renders-each [] = Renders-skip q m r
    Renders-each (x ∷ xs) =
        Renders-eq _ (ap (λ o. o ⊕ rest_out xs) (nil-⊕ (out x)) ∙ comma_rest x xs)
          (Renders->> q m r (Renders->> q m r (Renders-skip q m r) (h x)) (Renders-rest 1 xs refl))
