-- ===== src/Embedded/Simulator/Patching.antt =====
-- The patches of the debug agent against the checks of the simulator.
use networkops_ai_agent.Base.{
  Char, String, count_char, ◌<>◌, ◌≡◌, ◌+◌, nil-append, arith, cons-append, ℕ, repeat_text, zero,
  refl, suc, starts_with, ap, sym, ◌∙◌, is_empty, false, occurs_in, ◌||◌, true, nat_eq, string_eq,
}

module _ (ch : Char) where
  pub count-append : (s t : String) → count_char ch (s <> t) ≡ count_char ch s + count_char ch t
  unfolding count_char
  count-append String.[] t = rw nil-append (ground arith)
  count-append (String.◌∷◌ c s) t = rw cons-append (ground (arith, count-append s t))

pub count-repeat_closed : (n : ℕ) → count_char "}" (repeat_text "}" n) ≡ n
unfolding count_char repeat_text
count-repeat_closed zero = refl
count-repeat_closed (suc n) = rw (cons-append, nil-append) (ground (arith, count-repeat_closed n))

pub count-repeat_opened : (n : ℕ) → count_char "{" (repeat_text "}" n) ≡ 0
unfolding count_char repeat_text
count-repeat_opened zero = refl
count-repeat_opened (suc n) = rw (cons-append, nil-append) (ground (arith, count-repeat_opened n))

-- A pattern without a closing brace is found in a text exactly when it is found with braces after.
starts_with-repeat :
    (s p : String) (n : ℕ)
    → count_char "}" p ≡ 0
    → starts_with (s <> repeat_text "}" n) p ≡ starts_with s p
unfolding starts_with repeat_text count_char
starts_with-repeat s String.[] n h = refl
starts_with-repeat String.[] (String.◌∷◌ q p) zero h = refl
starts_with-repeat String.[] (String.◌∷◌ q p) (suc n) h =
    rw (nil-append, cons-append, nil-append) (ground arith)
starts_with-repeat (String.◌∷◌ c s) (String.◌∷◌ q p) n h =
    rw cons-append (ground (arith, starts_with-repeat s p n))

starts_with-cons-repeat :
    (c : Char) (s p : String) (n : ℕ)
    → count_char "}" p ≡ 0
    → starts_with (String.◌∷◌ c (s <> repeat_text "}" n)) p ≡ starts_with (String.◌∷◌ c s) p
starts_with-cons-repeat c s p n h =
    ap (λ t. starts_with t p) (sym (cons-append c s (repeat_text "}" n)))
    ∙ starts_with-repeat (String.◌∷◌ c s) p n h

occurs_in-empty : (p : String) → is_empty p ≡ false → occurs_in p "" ≡ false
unfolding occurs_in starts_with
occurs_in-empty String.[] k = cc
occurs_in-empty (String.◌∷◌ q p) k = refl

occurs_in-repeated :
    (p : String) (n : ℕ)
    → count_char "}" p ≡ 0
    → is_empty p ≡ false
    → occurs_in p (repeat_text "}" n) ≡ false
unfolding occurs_in repeat_text starts_with count_char
occurs_in-repeated String.[] n h k = cc
occurs_in-repeated (String.◌∷◌ q p) zero h k = refl
occurs_in-repeated (String.◌∷◌ q p) (suc n) h k =
    rw (cons-append, nil-append) (ground (arith, occurs_in-repeated (String.◌∷◌ q p) n h k))

pub occurs_in-repeat :
    (p s : String) (n : ℕ)
    → count_char "}" p ≡ 0
    → is_empty p ≡ false
    → occurs_in p (s <> repeat_text "}" n) ≡ occurs_in p s
unfolding occurs_in
occurs_in-repeat p String.[] n h k =
    rw nil-append (occurs_in-repeated p n h k ∙ sym (occurs_in-empty p k))
occurs_in-repeat p (String.◌∷◌ c s) n h k =
    rw (cons-append, starts_with-cons-repeat c s p n h)
      (ap (λ b. starts_with (String.◌∷◌ c s) p || b) (occurs_in-repeat p s n h k))

starts_with-append : (s t p : String) → starts_with s p ≡ true → starts_with (s <> t) p ≡ true
unfolding starts_with
starts_with-append s t String.[] h = refl
starts_with-append String.[] t (String.◌∷◌ q p) h = cc
starts_with-append (String.◌∷◌ c s) t (String.◌∷◌ q p) h =
    rw cons-append (ground (arith, starts_with-append s t p))

starts_with-cons-append :
    (c : Char) (s t p : String)
    → starts_with (String.◌∷◌ c s) p ≡ true
    → starts_with (String.◌∷◌ c (s <> t)) p ≡ true
starts_with-cons-append c s t p h =
    ap (λ u. starts_with u p) (sym (cons-append c s t)) ∙ starts_with-append (String.◌∷◌ c s) t p h

-- What a text contains is in the text with more after it.
pub occurs_in-append :
    (p s t : String) → is_empty p ≡ false → occurs_in p s ≡ true → occurs_in p (s <> t) ≡ true
unfolding occurs_in
occurs_in-append p String.[] t k h = ground (arith, occurs_in-empty p k)
occurs_in-append p (String.◌∷◌ c s) t k h =
    rw cons-append (ground (arith, starts_with-cons-append c s t p, occurs_in-append p s t k))

-- A pattern whose first character is not in a text does not begin there.
pub occurs_in-after :
    (q : Char) (p s t : String)
    → count_char q s ≡ 0
    → occurs_in (String.◌∷◌ q p) (s <> t) ≡ occurs_in (String.◌∷◌ q p) t
unfolding occurs_in starts_with count_char
occurs_in-after q p String.[] t h = rw nil-append refl
occurs_in-after q p (String.◌∷◌ c s) t h = rw cons-append (ground (arith, occurs_in-after q p s t))
