-- ===== src/Analysis/Guard/Email.antt =====
-- The recogniser of e-mail addresses against the language of its pattern.
use sentinel_vault.Common.{
  ℕ, String, Bool, true, false, ◌&&◌, ◌||◌, ◌≡◌, ◌↔◌, refl, ap, ◌∙◌, inl, inr, List, [], ◌∷◌, ◌++◌,
  all, length, arith, leb, eqb, Bool-cases,
}
use sentinel_vault.Analysis.Guard.{
  char_codes, is_plain, ends_plain, matches_domain, matches_address, is_email,
}

-- A name and an ending of at least two characters, with a dot between them; the name is not empty
-- unless something stands before it.
abbrev pub IsDomain : Bool → List ℕ → Type 0
IsDomain seen s =
    (name : List ℕ) × (ending : List ℕ) × (s ≡ name ++ (46 ∷ ending))
    × (all is_plain name ≡ true)
    × ((seen || leb 1 (length name)) ≡ true)
    × (all is_plain ending ≡ true)
    × (leb 2 (length ending) ≡ true)

-- A name and a domain, with an at sign between them.
abbrev pub IsAddress : Bool → List ℕ → Type 0
IsAddress seen s =
    (name : List ℕ) × (domain : List ℕ) × (s ≡ name ++ (64 ∷ domain))
    × (all is_plain name ≡ true)
    × ((seen || leb 1 (length name)) ≡ true)
    × IsDomain false domain

same_code : (a b : ℕ) → eqb a b ≡ true → a ≡ b
same_code a b h = ground arith

IsDomain-sound : (seen : Bool) (s : List ℕ) → matches_domain seen s ≡ true → IsDomain seen s
unfolding matches_domain
IsDomain-sound seen [] h = cc
IsDomain-sound seen (c ∷ s) h = elim (Bool-cases (seen && (eqb c 46 && ends_plain s))) [
  | inl dot ↦ (
    [],
    s,
    ap (λ x. x ∷ s) (same_code c 46 (ground arith)),
    refl,
    ground arith,
    ground arith,
    ground arith,
  )
  | inr no_dot ↦
      let plain : is_plain c ≡ true = ground arith in
      let (name, ending, e, plains, started, ends, long) = IsDomain-sound true s (ground arith) in
      (c ∷ name, ending, ap (λ x. c ∷ x) e, rw plain plains, ground arith, ends, long)
]

domain_complete :
    (seen : Bool) (name ending : List ℕ)
    → all is_plain name ≡ true
    → (seen || leb 1 (length name)) ≡ true
    → all is_plain ending ≡ true
    → leb 2 (length ending) ≡ true
    → matches_domain seen (name ++ (46 ∷ ending)) ≡ true
unfolding matches_domain
domain_complete seen [] ending plains started ends long =
    let begun : seen ≡ true = ground arith in rw begun (rw long (rw ends refl))
domain_complete seen (c ∷ name) ending plains started ends long =
    let rest = domain_complete true name ending (ground arith) refl ends long in ground arith

IsAddress-sound : (seen : Bool) (s : List ℕ) → matches_address seen s ≡ true → IsAddress seen s
unfolding matches_address
IsAddress-sound seen [] h = cc
IsAddress-sound seen (c ∷ s) h = elim (Bool-cases (seen && (eqb c 64 && matches_domain false s))) [
  | inl at ↦ (
    [],
    s,
    ap (λ x. x ∷ s) (same_code c 64 (ground arith)),
    refl,
    ground arith,
    IsDomain-sound false s (ground arith),
  )
  | inr not_at ↦
      let plain : is_plain c ≡ true = ground arith in
      let (name, domain, e, plains, started, rest) = IsAddress-sound true s (ground arith) in
      (c ∷ name, domain, ap (λ x. c ∷ x) e, rw plain plains, ground arith, rest)
]

address_complete :
    (seen : Bool) (name domain : List ℕ)
    → all is_plain name ≡ true
    → (seen || leb 1 (length name)) ≡ true
    → matches_domain false domain ≡ true
    → matches_address seen (name ++ (64 ∷ domain)) ≡ true
unfolding matches_address
address_complete seen [] domain plains started matches =
    let begun : seen ≡ true = ground arith in rw begun (rw matches refl)
address_complete seen (c ∷ name) domain plains started matches =
    let rest = address_complete true name domain (ground arith) refl matches in ground arith

-- The recogniser of e-mail addresses accepts exactly the texts that have the form of its pattern:
-- a name, an at sign and a domain, which is a name, a dot and an ending of at least two characters,
-- where no name is empty, and no name and no ending has white space or another at sign in it.
pub is_email_iff : (s : String) → (is_email s ≡ true) ↔ IsAddress false (char_codes s)
unfolding is_email
is_email_iff s = (
  IsAddress-sound false (char_codes s),
  λ (name, domain, e, plains, started, (host, ending, e', hosts, begun, ends, long)).
      ap (matches_address false) e
      ∙ address_complete false name domain plains started
          (ap (matches_domain false) e' ∙ domain_complete false host ending hosts begun ends long),
)
