-- ===== src/Tools/Snapshot/Roundtrip.antt =====
-- A snapshot that is persisted is restored.
use ravana.Prelude.{
  ℕ, ◌≡◌, refl, sym, ap, ◌∙◌, subst, String, Bool, true, false, not, ◌||◌, All, Option, none, some,
  List, [], ◌∷◌, ◌++◌, keep, all, contains, str_eq, str_eq→eq, str_eq_refl, ◌||◌, arith,
  if◌then◌else◌,
}
use ravana.Exception.{Result, ok, guard, toolkit_error, fatal, ◌>>=◌, ◌>>◌}
use ravana.Dict.{Dict, get, keys, Distinct, IsDict}
use ravana.Value.{Value, Entries, obj}
use ravana.Tools.{Tool}
use ravana.Tools.Snapshot.{
  SnapshotRow, sort_rows, is_of, has_fingerprint, tool_in, pin_rows, restore_rows, restore, row_of,
  rows_of, persist,
}
use ravana.Tools.Snapshot.Order.{
  look, names, names-sort_rows, look-sort_rows, look_absent, All-sort_rows,
}
use ravana.Tools.Snapshot.Pins.{loaded_as, row_tool, Loads, pin_rows-Pins}

-- What a tool is restored as, when `json` gives an object back with its keys in another order.
abbrev pub resorted : (Entries → Entries) → Value → Value
resorted sorted (obj d) = obj (sorted d)
resorted sorted v = v

abbrev pub restored_tool : (Entries → Entries) → String → Tool → Tool
restored_tool sorted name t = record {
  name = name;
  description = t.description;
  input_schema = resorted sorted t.input_schema;
}

abbrev pub restored : (Entries → Entries) → String → Option Tool → Option Tool
restored sorted name none = none
restored sorted name (some t) = some (restored_tool sorted name t)

module _ (dumps : Value → String) (loads : String → Option Value) (sorted : Entries → Entries)
    (now : ℕ) (run_id toolkit_id fingerprint : String) where
  -- An object that `json` gives back, once it is written, with its keys sorted.
  abbrev pub Written : Value → Type 0
  Written v = (d : Entries) × (v ≡ obj d) × (loads (dumps v) ≡ some (obj (sorted d)))

  abbrev pub Objects : Dict Tool → Type 0
  Objects pinned = All (λ (e : String × Tool). Written e.1.input_schema) pinned

  abbrev rows_for : Dict Tool → List SnapshotRow
  rows_for pinned = rows_of dumps now run_id toolkit_id fingerprint pinned

  abbrev row_for : String → Tool → SnapshotRow
  row_for name spec = row_of dumps now run_id toolkit_id fingerprint name spec

  pub loaded-dumps : (v : Value) → Written v → loaded_as (loads (dumps v)) ≡ resorted sorted v
  loaded-dumps v (d, eq, back) = ap loaded_as back ∙ sym (ap (resorted sorted) eq)

  pub rows_of-Loads : (pinned : Dict Tool) → Objects pinned → All (Loads loads) (rows_for pinned)
  rows_of-Loads [] objects = tt
  rows_of-Loads ((name, spec) ∷ pinned) ((d, eq, back), objects) =
      ((sorted d, back), rows_of-Loads pinned objects)

  pub names-rows_of :
      (pinned : Dict Tool) (x : String)
      → contains (names (rows_for pinned)) x ≡ contains (keys pinned) x
  names-rows_of [] x = refl
  names-rows_of ((name, spec) ∷ pinned) x = ap (λ b. str_eq name x || b) (names-rows_of pinned x)

  pub Distinct-rows_of : (pinned : Dict Tool) → IsDict pinned → Distinct (names (rows_for pinned))
  Distinct-rows_of [] d = tt
  Distinct-rows_of ((name, spec) ∷ pinned) (fresh, d) =
      (names-rows_of pinned name ∙ fresh, Distinct-rows_of pinned d)

  pub look-rows_of :
      (pinned : Dict Tool) (name : String)
      → IsDict pinned
      → Objects pinned
      → look (row_tool loads) (rows_for pinned) name none ≡ restored sorted name (get pinned name)
  unfolding look get
  look-rows_of [] name d objects = refl
  look-rows_of ((n, spec) ∷ pinned) name (fresh, d) (object, objects) =
      at (str_eq n name) refl (look-rows_of pinned name d objects)
    where
      at :
          (b : Bool)
          → str_eq n name ≡ b
          → look (row_tool loads) (rows_for pinned) name none
            ≡ restored sorted name (get pinned name)
          → look
              (row_tool loads)
              (rows_for pinned)
              name
              (if b then some (row_tool loads (row_for n spec)) else none)
            ≡ restored sorted name (if b then some spec else get pinned name)
      at false same rest = rest
      at true same rest =
          look_absent (row_tool loads) (rows_for pinned) name _ (
            names-rows_of pinned name
            ∙ subst (λ k. contains (keys pinned) k ≡ false) (str_eq→eq n name same) fresh)
          ∙ ap (λ v. some (tool_in (row_for n spec) v)) (loaded-dumps spec.input_schema object)
          ∙ ap (λ k. some (restored_tool sorted k spec)) (str_eq→eq n name same)

  pub keep-rows_of :
      (pinned : Dict Tool) → keep (is_of run_id toolkit_id) (rows_for pinned) ≡ rows_for pinned
  keep-rows_of [] = refl
  keep-rows_of ((name, spec) ∷ pinned) =
      ground (arith, str_eq_refl run_id, str_eq_refl toolkit_id, keep-rows_of pinned)

  pub keep-persist :
      (pinned : Dict Tool) (rows : List SnapshotRow)
      → keep (is_of run_id toolkit_id) (persist dumps now run_id toolkit_id fingerprint pinned rows)
        ≡ rows_for pinned
  unfolding persist
  keep-persist pinned [] = keep-rows_of pinned
  keep-persist pinned (r ∷ rows) =
      dropped (is_of run_id toolkit_id r) refl (keep-persist pinned rows)
    where
      dropped :
          (b : Bool)
          → is_of run_id toolkit_id r ≡ b
          → keep
              (is_of run_id toolkit_id)
              (keep (λ x. not (is_of run_id toolkit_id x)) rows ++ rows_for pinned)
            ≡ rows_for pinned
          → keep (is_of run_id toolkit_id) (
              (if not b
                then r ∷ keep (λ x. not (is_of run_id toolkit_id x)) rows
                else keep (λ x. not (is_of run_id toolkit_id x)) rows)
              ++ rows_for pinned)
            ≡ rows_for pinned
      dropped true is rest = rest
      dropped false is rest = ground (arith, is, rest)

  abbrev Marked : SnapshotRow → Type 0
  Marked r = has_fingerprint fingerprint r ≡ true

  pub rows_of-Marked : (pinned : Dict Tool) → All Marked (rows_for pinned)
  rows_of-Marked [] = tt
  rows_of-Marked ((name, spec) ∷ pinned) = (str_eq_refl fingerprint, rows_of-Marked pinned)

  pub all-Marked :
      (rows : List SnapshotRow) → All Marked rows → all (has_fingerprint fingerprint) rows ≡ true
  all-Marked [] marked = refl
  all-Marked (r ∷ rows) (first, marked) = ground (arith, first, all-Marked rows marked)

  abbrev pub Restores : List SnapshotRow → Result (Option (Dict Tool)) → Type 0
  Restores rows out =
      (pinned : Dict Tool) × (out ≡ ok (some pinned))
      × ((name : String) → get pinned name ≡ look (row_tool loads) rows name none)

  pub restore_rows-Restores :
      (rows : List SnapshotRow) (name : String)
      → contains (names rows) name ≡ true
      → All Marked rows
      → All (Loads loads) rows
      → Restores rows (restore_rows loads fingerprint rows)
  unfolding get
  restore_rows-Restores [] name some_row marked loadable = cc
  restore_rows-Restores (r ∷ rows) name some_row marked loadable =
      let (pinned, eq, looks) = pin_rows-Pins loads (r ∷ rows) [] loadable in
      (
        pinned,
        ap (λ b. guard b (toolkit_error fatal) >> read) (all-Marked (r ∷ rows) marked)
            ∙ ap (λ out. out >>= λ pins. ok (some pins)) eq,
        looks,
      )
    where
      read : Result (Option (Dict Tool))
      read = pin_rows loads (r ∷ rows) [] >>= λ pins. ok (some pins)

  -- A snapshot of at least one tool that is persisted is restored, whatever rows were there before:
  -- under every name the same tool, with its name, its description and its schema. The snapshot is
  -- a dictionary, and its schemas are objects that `json` gives back, once they are written, with
  -- their keys sorted.
  pub restore-persist :
      (first : String) (spec : Tool) (others : Dict Tool) (rows : List SnapshotRow)
      → IsDict ((first, spec) ∷ others)
      → Objects ((first, spec) ∷ others)
      → (pinned : Dict Tool) × (restore loads run_id toolkit_id fingerprint
            (persist dumps now run_id toolkit_id fingerprint ((first, spec) ∷ others) rows)
          ≡ ok (some pinned))
        × ((name : String)
            → get pinned name ≡ restored sorted name (get ((first, spec) ∷ others) name))
  unfolding restore
  restore-persist first spec others rows d objects =
      let tools = (first, spec) ∷ others in
      let ordered = sort_rows (rows_for tools) in
      let (pinned, eq, looks) =
        restore_rows-Restores ordered first
          (names-sort_rows (row_tool loads) (rows_for tools) first
            ∙ ground (arith, str_eq_refl first))
          (All-sort_rows Marked (rows_for tools) (rows_of-Marked tools))
          (All-sort_rows (Loads loads) (rows_for tools) (rows_of-Loads tools objects)) in
      (
        pinned,
        ap (λ xs. restore_rows loads fingerprint (sort_rows xs)) (keep-persist tools rows) ∙ eq,
        λ name.
            looks name
            ∙ look-sort_rows (row_tool loads) (rows_for tools) name none (Distinct-rows_of tools d)
            ∙ look-rows_of tools name d objects,
      )
