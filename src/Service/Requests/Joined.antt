-- ===== src/Service/Requests/Joined.antt =====
-- Several include values count as their tokens in one.
use Prim.Native.Char.{Char, code}
use gesetzeswache.Prelude.{
  ◌≡◌, refl, sym, ◌∙◌, ap, String, Bool, true, false, ◌||◌, ◌==◌, List, [], ◌∷◌, ◌++◌, inl, inr,
  arith, eq_iff, eqb, any, Bool-cases,
}
use gesetzeswache.Service.Freshness.{IncludeOpts}
use gesetzeswache.Text.{push, split_on}
use gesetzeswache.Service.Requests.{
  no_opts, token, include_token, include_parts, parse_include, either_opts, merge_from,
  merge_include,
}

-- Two texts with a comma between them.
abbrev with_comma : String → String → String
with_comma String.[] t = String.◌∷◌ "," t
with_comma (String.◌∷◌ c s) t = String.◌∷◌ c (with_comma s t)

-- The values in one, with commas between them.
abbrev pub joined : String → List String → String
joined v [] = v
joined v (w ∷ values) = with_comma v (joined w values)

push-append :
    (c : Char) (part : String) (xs ys : List String)
    → push c ((part ∷ xs) ++ ys) ≡ push c (part ∷ xs) ++ ys
push-append c part xs ys = refl

-- A split has a first part.
split-first :
    (s : String) → (part : String) × (parts : List String) × (split_on b',' s ≡ part ∷ parts)
unfolding split_on
split-first String.[] = ("", [], refl)
split-first (String.◌∷◌ c s) = elim (Bool-cases (eqb (code c) b',')) [
  | inl e ↦ ("", split_on b',' s, rw e refl)
  | inr e ↦ let (part, parts, q) = split-first s in (String.◌∷◌ c part, parts, rw (e, q) refl)
]

split-joined : (s t : String) → split_on b',' (with_comma s t) ≡ split_on b',' s ++ split_on b',' t
unfolding split_on
split-joined String.[] t = refl
split-joined (String.◌∷◌ c s) t = elim (Bool-cases (eqb (code c) b',')) [
  | inl e ↦ rw (e, split-joined s t) refl
  | inr e ↦ let (part, parts, q) = split-first s in rw (e, split-joined s t, q) refl
]

abbrev has : String → List String → Bool
has name parts = any (λ part. token part == name) parts

-- The options that the tokens of a list name.
abbrev named : List String → IncludeOpts
named parts = record {
  past = has "past" parts;
  linked = has "linked" parts;
  proof = has "proof" parts;
}

abbrev named_one : String → IncludeOpts
named_one t = record { past = t == "past"; linked = t == "linked"; proof = t == "proof" }

or_true : (a : Bool) → (a || true) ≡ true
or_true a = ground arith

or_false : (a : Bool) → (a || false) ≡ a
or_false a = ground arith

include_token-named :
    (o : IncludeOpts) (t : String) → include_token o t ≡ either_opts o (named_one t)
unfolding include_token
include_token-named o t = elim (Bool-cases (t == "past")) [
  | inl e ↦
      let q : t ≡ "past" = (eq_iff t "past").0 e in
      rw (q, or_true o.past, or_false o.linked, or_false o.proof) refl
  | inr e ↦ elim (Bool-cases (t == "linked")) [
    | inl f ↦
        let q : t ≡ "linked" = (eq_iff t "linked").0 f in
        rw (q, or_true o.linked, or_false o.past, or_false o.proof) refl
    | inr f ↦ elim (Bool-cases (t == "proof")) [
      | inl g ↦
          let q : t ≡ "proof" = (eq_iff t "proof").0 g in
          rw (q, or_true o.proof, or_false o.past, or_false o.linked) refl
      | inr g ↦ rw (e, f, g, or_false o.past, or_false o.linked, or_false o.proof) refl
    ]
  ]
]

either_opts_assoc :
    (o p q : IncludeOpts) → either_opts (either_opts o p) q ≡ either_opts o (either_opts p q)
either_opts_assoc o p q =
    rw (assoc o.past p.past q.past, assoc o.linked p.linked q.linked, assoc o.proof p.proof q.proof)
      refl
  where
    assoc : (a b c : Bool) → ((a || b) || c) ≡ (a || (b || c))
    assoc a b c = ground arith

include_parts-named :
    (o : IncludeOpts) (parts : List String) → include_parts o parts ≡ either_opts o (named parts)
unfolding include_parts
include_parts-named o [] = rw (or_false o.past, or_false o.linked, or_false o.proof) refl
include_parts-named o (part ∷ parts) =
    include_parts-named (include_token o (token part)) parts
    ∙ ap (λ p. either_opts p (named parts)) (include_token-named o (token part))
    ∙ either_opts_assoc o (named_one (token part)) (named parts)

parse_include-named : (raw : String) → parse_include raw ≡ named (split_on b',' raw)
unfolding parse_include
parse_include-named raw = include_parts-named no_opts (split_on b',' raw)

has-append :
    (name : String) (xs ys : List String) → has name (xs ++ ys) ≡ (has name xs || has name ys)
has-append name [] ys = refl
has-append name (x ∷ xs) ys =
    rw (has-append name xs ys) (assoc (token x == name) (has name xs) (has name ys))
  where
    assoc : (a b c : Bool) → (a || (b || c)) ≡ ((a || b) || c)
    assoc a b c = ground arith

named-append : (xs ys : List String) → named (xs ++ ys) ≡ either_opts (named xs) (named ys)
named-append xs ys =
    rw (has-append "past" xs ys, has-append "linked" xs ys, has-append "proof" xs ys) refl

merge_from-joined :
    (o : IncludeOpts) (v : String) (values : List String)
    → merge_from o (v ∷ values) ≡ either_opts o (parse_include (joined v values))
unfolding merge_from
merge_from-joined o v [] = refl
merge_from-joined o v (w ∷ values) =
    let rest = joined w values in
    let both : parse_include (with_comma v rest)
        ≡ either_opts (parse_include v) (parse_include rest) =
      parse_include-named (with_comma v rest)
      ∙ ap named (split-joined v rest)
      ∙ named-append (split_on b',' v) (split_on b',' rest)
      ∙ sym (ap (λ p. either_opts p (named (split_on b',' rest))) (parse_include-named v))
      ∙ sym (ap (λ p. either_opts (parse_include v) p) (parse_include-named rest)) in
    merge_from-joined (either_opts o (parse_include v)) w values
    ∙ either_opts_assoc o (parse_include v) (parse_include rest)
    ∙ sym (ap (either_opts o) both)

-- Merging several include values is parsing them as one, with commas between them.
pub merge_include-joined :
    (v : String) (values : List String)
    → merge_include (v ∷ values) ≡ parse_include (joined v values)
unfolding merge_include
merge_include-joined v values = merge_from-joined no_opts v values
