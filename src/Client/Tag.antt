-- ===== src/Client/Tag.antt =====
-- What the message of a decision tag determines.
use Prim.Native.Char.{Char}
use Prim.Native.String.{[], ◌∷◌, count}
use mathlib.Core.Bool.{false≢true}
use text.Mathlib.TextLemmas.{
  append_assoc, append_inj, length-append, append_cancel_left, cons-append, nil-append,
  head-eq_of_cons-eq, tail-eq_of_cons-eq,
}
use soundgate_paper.Node.Auth.{Digest}
use soundgate_paper.Prelude.{
  String, ◌<>◌, ◌≡◌, ◌≢◌, refl, sym, ap, ◌∙◌, Bool, true, false, arith, eq_iff,
}
use soundgate_paper.Client.{flag, decision_message, hexdigest, decision_tag}

abbrev newline : Char
newline = "\n"

abbrev pub HasNoNewline : String → Type 0
HasNoNewline [] = Unit
HasNoNewline (c ∷ s) = (c ≢ newline) × HasNoNewline s

newline-append : (x : String) → "\n" <> x ≡ newline ∷ x
newline-append x = cons-append newline [] x ∙ ap (λ (z : String). newline ∷ z) (nil-append x)

nil-newline : (x : String) → "" <> ("\n" <> x) ≡ newline ∷ x
nil-newline x = nil-append _ ∙ newline-append x

-- The first newline splits a text in one way.
split_newline :
    (r s : String) (x y : String)
    → HasNoNewline r
    → HasNoNewline s
    → r <> ("\n" <> x) ≡ s <> ("\n" <> y)
    → (r ≡ s) × (x ≡ y)
split_newline [] [] x y hr hs e =
    (refl, tail-eq_of_cons-eq (sym (nil-newline x) ∙ e ∙ nil-newline y))
split_newline [] (c ∷ s) x y hr hs e =
    absurd (hs.0 (sym (head-eq_of_cons-eq (sym (nil-newline x) ∙ e ∙ cons-append c s _))))
split_newline (c ∷ r) [] x y hr hs e =
    absurd (hr.0 (head-eq_of_cons-eq (sym (cons-append c r _) ∙ e ∙ nil-newline y)))
split_newline (c ∷ r) (d ∷ s) x y hr hs e =
    let e' = sym (cons-append c r _) ∙ e ∙ cons-append d s _ in
    let (same, rest) = split_newline r s x y hr.1 hs.1 (tail-eq_of_cons-eq e') in
    (λ i. head-eq_of_cons-eq e' i ∷ same i, rest)

flag-injective : (a b : Bool) → flag a ≡ flag b → a ≡ b
flag-injective true true e = refl
flag-injective false false e = refl
flag-injective true false e = absurd (false≢true ((eq_iff "1" "0").1 e))
flag-injective false true e = absurd (false≢true ((eq_iff "0" "1").1 e))

count-flag : (a : Bool) → count ("\n" <> flag a) ≡ 2
count-flag true = refl
count-flag false = refl

-- The flag is the last character, so the key and the flag come apart too.
key_and_flag :
    (k l : String) (a b : Bool) → k <> ("\n" <> flag a) ≡ l <> ("\n" <> flag b) → (k ≡ l) × (a ≡ b)
key_and_flag k l a b e =
    let (same, tail) = append_inj e (equal_counts (λ i. count (e i))) in
    (same, flag-injective a b (append_cancel_left "\n" _ _ tail))
  where
    equal_counts : count (k <> ("\n" <> flag a)) ≡ count (l <> ("\n" <> flag b)) → count k ≡ count l
    equal_counts h = omega (
      arith,
      h,
      length-append k ("\n" <> flag a),
      length-append l ("\n" <> flag b),
      count-flag a,
      count-flag b,
    )

-- Among run ids without a newline, the message determines the run, the effect and the decision.
pub decision_message-injective :
    (r s k l : String) (a b : Bool)
    → HasNoNewline r
    → HasNoNewline s
    → decision_message r k a ≡ decision_message s l b
    → (r ≡ s) × (k ≡ l) × (a ≡ b)
unfolding decision_message
decision_message-injective r s k l a b hr hs e =
    let (same_run, rest) = split_newline r s _ _ hr hs e in
    let (same_key, same_flag) = key_and_flag k l a b rest in (same_run, same_key, same_flag)

-- A newline in a run id moves freely between the run and the effect: two different decisions have
-- one message, and so one tag.
pub decision_tag_collision :
    (hmac : Digest) (secret r m k : String) (a : Bool)
    → decision_tag hmac secret (r <> ("\n" <> m)) k a
      ≡ decision_tag hmac secret r (m <> ("\n" <> k)) a
unfolding decision_tag decision_message
decision_tag_collision hmac secret r m k a =
    ap (λ (m : String). hexdigest (hmac secret m))
      (append_assoc r ("\n" <> m) _
        ∙ ap (λ (z : String). r <> z) (append_assoc "\n" m _)
        ∙ ap (λ (z : String). r <> ("\n" <> z))
            (sym
              (append_assoc m ("\n" <> k) _ ∙ ap (λ (z : String). m <> z) (append_assoc "\n" k _))))
