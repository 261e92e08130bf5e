-- ===== src/Tools/Offered/Counts.antt =====
-- How many handlers answer to a name.
use ravana.Prelude.{
  ℕ, suc, ◌+◌, ◌≤◌, ◌≡◌, refl, sym, ap, ◌∙◌, subst, String, Bool, true, false, ◌||◌, List, [], ◌∷◌,
  ◌++◌, keep, any, All, length, arith, if◌then◌else◌, if_cases, ◌⊎◌, inl, inr,
}
use ravana.Exception.{ok, ◌>>=◌, >>=-eq-ok, Returns, >>=-Returns}
use ravana.Tools.{Tool, Handler, pinned_tools, all_pinned, is_named, count_named, matches}

-- How many handlers pin a name, by how often it is pinned.
abbrev pub Counts : ℕ → List Handler → Type 0
Counts n found = (n ≡ 0 → found ≡ []) × (n ≡ 1 → length found ≡ 1)

pub count_named-append :
    (xs ys : List Tool) (name : String)
    → count_named (xs ++ ys) name ≡ count_named xs name + count_named ys name
count_named-append [] ys name = omega arith
count_named-append (x ∷ xs) ys name = ground (arith, count_named-append xs ys name)

pub any-count_named :
    (xs : List Tool) (name : String)
    → ((any (is_named name) xs ≡ true) × (1 ≤ count_named xs name))
      ⊎ ((any (is_named name) xs ≡ false) × (count_named xs name ≡ 0))
any-count_named [] name = inr (refl, refl)
any-count_named (x ∷ xs) name = step (is_named name x) (any-count_named xs name)
  where
    step :
        (b : Bool)
        → ((any (is_named name) xs ≡ true) × (1 ≤ count_named xs name))
          ⊎ ((any (is_named name) xs ≡ false) × (count_named xs name ≡ 0))
        → (((b || any (is_named name) xs) ≡ true)
            × (1 ≤ length (if b then x ∷ keep (is_named name) xs else keep (is_named name) xs)))
          ⊎ (((b || any (is_named name) xs) ≡ false)
              × (length (if b then x ∷ keep (is_named name) xs else keep (is_named name) xs) ≡ 0))
    step true rest = inl (refl, omega arith)
    step false rest = rest

pub Counts-more :
    (n m : ℕ) (h : Handler) (found : List Handler)
    → 1 ≤ n
    → Counts m found
    → Counts (n + m) (h ∷ found)
Counts-more n m h found some_here (none_found, one_found) = (
  (λ zero_all. absurd (omega (arith, some_here, zero_all))),
  (λ one. ap (λ xs. suc (length xs)) (none_found (omega (arith, some_here, one)))),
)

pub Counts-same : (n m : ℕ) (found : List Handler) → n ≡ 0 → Counts m found → Counts (n + m) found
Counts-same n m found zero_here (none_found, one_found) = (
  (λ zero_all. none_found (omega (arith, zero_here, zero_all))),
  (λ one. one_found (omega (arith, zero_here, one))),
)

module _ (run_id name : String) where
  pub Counts-step :
      (h : Handler) (these others : List Tool) (found : List Handler)
      → Counts (count_named others name) found
      → Counts
          (count_named (these ++ others) name)
          (if any (is_named name) these then h ∷ found else found)
  Counts-step h these others found counts =
      subst (λ n. Counts n (if any (is_named name) these then h ∷ found else found))
        (sym (count_named-append these others name)) (step (any-count_named these name))
    where
      n : ℕ
      n = count_named these name

      m : ℕ
      m = count_named others name

      step :
          ((any (is_named name) these ≡ true) × (1 ≤ n))
            ⊎ ((any (is_named name) these ≡ false) × (n ≡ 0))
          → Counts (n + m) (if any (is_named name) these then h ∷ found else found)
      step (inl (is, some_here)) =
          subst (λ b. Counts (n + m) (if b then h ∷ found else found)) (sym is)
            (Counts-more n m h found some_here counts)
      step (inr (is, zero_here)) =
          subst (λ b. Counts (n + m) (if b then h ∷ found else found)) (sym is)
            (Counts-same n m found zero_here counts)

  pub matches-Counts :
      (handlers : List Handler) (pinned : List Tool)
      → all_pinned handlers run_id ≡ ok pinned
      → (found : List Handler) × (matches handlers name run_id ≡ ok found)
        × Counts (count_named pinned name) found
  unfolding all_pinned matches
  matches-Counts [] pinned eq = (
    [],
    refl,
    subst (λ xs. Counts (count_named xs name) []) nothing
        ((λ _. refl), λ one. absurd (omega (arith, one))),
  )
    where
      nothing : [] ≡ pinned
      nothing = cc
  matches-Counts (h ∷ handlers) pinned eq =
      let (these, e1, r1) =
        >>=-eq-ok (pinned_tools h run_id)
          (λ these. all_pinned handlers run_id >>= λ others. ok (these ++ others)) eq in
      let (others, e2, r2) =
        >>=-eq-ok (all_pinned handlers run_id) (λ others. ok (these ++ others)) r1 in
      let (found, e3, counts) = matches-Counts handlers others e2 in
      let joined : these ++ others ≡ pinned = cc in
      (
        (if any (is_named name) these then h ∷ found else found),
        ap
              (λ p. p >>= λ ts. matches handlers name run_id >>= λ fs.
                ok (if any (is_named name) ts then h ∷ fs else fs))
              e1
            ∙ ap (λ p. p >>= λ fs. ok (if any (is_named name) these then h ∷ fs else fs)) e3,
        subst
            (λ xs.
              Counts (count_named xs name) (if any (is_named name) these then h ∷ found else found))
            joined (Counts-step h these others found counts),
      )

  abbrev pub Pins : Handler → Type 0
  Pins h =
      (tools : List Tool) × (pinned_tools h run_id ≡ ok tools) × (any (is_named name) tools ≡ true)

  pub matches-Pins : (handlers : List Handler) → Returns (All Pins) (matches handlers name run_id)
  unfolding matches
  matches-Pins [] = tt
  matches-Pins (h ∷ handlers) = >>=-Returns (All Pins) (pinned_tools h run_id) _ (λ these e1.
      >>=-Returns (All Pins) (matches handlers name run_id) _ (λ found e2.
        let rest = subst (Returns (All Pins)) e2 (matches-Pins handlers) in
        if_cases (All Pins) (any (is_named name) these) (λ is. ((these, e1, is), rest))
          (λ _. rest)))
