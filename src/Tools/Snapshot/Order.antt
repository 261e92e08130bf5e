-- ===== src/Tools/Snapshot/Order.antt =====
-- The order of a snapshot's rows does not matter to what is restored from them.
use ravana.Prelude.{
  ◌≡◌, refl, ap, ◌∙◌, String, false, ◌||◌, All, Option, some, List, [], ◌∷◌, map, all, contains,
  str_eq, or_false_both, eq_iff, arith, if◌then◌else◌, if_cases,
}
use ravana.Dict.{Distinct}
use ravana.Tools.{Tool}
use ravana.Tools.Snapshot.{SnapshotRow, leb_text, insert_row, sort_rows}

-- What is looked up in the dictionary that a list of rows fills, from what is there before.
abbrev pub after_row : (SnapshotRow → Tool) → SnapshotRow → String → Option Tool → Option Tool
after_row tool r name before = if str_eq r.tool_name name then some (tool r) else before

unfoldable pub look : (SnapshotRow → Tool) → List SnapshotRow → String → Option Tool → Option Tool
look tool [] name before = before
look tool (r ∷ rows) name before = look tool rows name (after_row tool r name before)

abbrev pub names : List SnapshotRow → List String
names rows = map (λ r. r.tool_name) rows

module _ (tool : SnapshotRow → Tool) where
  pub after_row-swap :
      (r s : SnapshotRow) (name : String) (before : Option Tool)
      → str_eq s.tool_name r.tool_name ≡ false
      → after_row tool r name (after_row tool s name before)
        ≡ after_row tool s name (after_row tool r name before)
  after_row-swap r s name before differ = ground (
    arith,
    differ,
    eq_iff r.tool_name name,
    eq_iff s.tool_name name,
    eq_iff s.tool_name r.tool_name,
  )

  -- Where the names differ, a row may come first or last.
  pub look-insert_row :
      (r : SnapshotRow) (rows : List SnapshotRow) (name : String) (before : Option Tool)
      → contains (names rows) r.tool_name ≡ false
      → look tool (insert_row r rows) name before ≡ look tool (r ∷ rows) name before
  unfolding look insert_row
  look-insert_row r [] name before fresh = refl
  look-insert_row r (s ∷ rows) name before fresh =
      let (differ, rest) = or_false_both (str_eq s.tool_name r.tool_name) fresh in
      if_cases
        (λ (xs : List SnapshotRow). look tool xs name before ≡ look tool (r ∷ s ∷ rows) name before)
        (leb_text r.tool_name s.tool_name) (λ _. refl)
        (λ _.
          look-insert_row r rows name (after_row tool s name before) rest
          ∙ ap (look tool rows name) (after_row-swap r s name before differ))

  pub names-insert_row :
      (r : SnapshotRow) (rows : List SnapshotRow) (name : String)
      → contains (names (insert_row r rows)) name ≡ contains (names (r ∷ rows)) name
  unfolding insert_row
  names-insert_row r [] name = refl
  names-insert_row r (s ∷ rows) name =
      if_cases
        (λ (xs : List SnapshotRow). contains (names xs) name ≡ contains (names (r ∷ s ∷ rows)) name)
        (leb_text r.tool_name s.tool_name) (λ _. refl)
        (λ _. ground (arith, names-insert_row r rows name))

  pub names-sort_rows :
      (rows : List SnapshotRow) (name : String)
      → contains (names (sort_rows rows)) name ≡ contains (names rows) name
  unfolding sort_rows
  names-sort_rows [] name = refl
  names-sort_rows (r ∷ rows) name =
      names-insert_row r (sort_rows rows) name
      ∙ ap (λ b. str_eq r.tool_name name || b) (names-sort_rows rows name)

  pub look-sort_rows :
      (rows : List SnapshotRow) (name : String) (before : Option Tool)
      → Distinct (names rows)
      → look tool (sort_rows rows) name before ≡ look tool rows name before
  unfolding look sort_rows
  look-sort_rows [] name before distinct = refl
  look-sort_rows (r ∷ rows) name before (fresh, distinct) =
      look-insert_row r (sort_rows rows) name before (names-sort_rows rows r.tool_name ∙ fresh)
      ∙ look-sort_rows rows name (after_row tool r name before) distinct

  pub look_absent :
      (rows : List SnapshotRow) (name : String) (before : Option Tool)
      → contains (names rows) name ≡ false
      → look tool rows name before ≡ before
  unfolding look
  look_absent [] name before absent = refl
  look_absent (r ∷ rows) name before absent =
      let (differ, rest) = or_false_both (str_eq r.tool_name name) absent in
      look_absent rows name (after_row tool r name before) rest
      ∙ ap (λ b. if b then some (tool r) else before) differ

-- A property of every row holds in every order.
pub All-insert_row :
    (P : SnapshotRow → Type 0) (r : SnapshotRow) (rows : List SnapshotRow)
    → P r
    → All P rows
    → All P (insert_row r rows)
unfolding insert_row
All-insert_row P r [] first all = (first, tt)
All-insert_row P r (s ∷ rows) first (second, rest) =
    if_cases (All P) (leb_text r.tool_name s.tool_name) (λ _. (first, (second, rest)))
      (λ _. (second, All-insert_row P r rows first rest))

pub All-sort_rows :
    (P : SnapshotRow → Type 0) (rows : List SnapshotRow) → All P rows → All P (sort_rows rows)
unfolding sort_rows
All-sort_rows P [] all = tt
All-sort_rows P (r ∷ rows) (first, all) =
    All-insert_row P r (sort_rows rows) first (All-sort_rows P rows all)
