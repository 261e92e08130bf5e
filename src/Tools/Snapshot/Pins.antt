-- ===== src/Tools/Snapshot/Pins.antt =====
-- What is looked up in a dictionary that is filled from rows.
use ravana.Prelude.{
  ◌≡◌, refl, sym, ap, ◌∙◌, String, All, Option, none, some, List, [], ◌∷◌, all, str_eq,
  if◌then◌else◌,
}
use ravana.Exception.{Result, ok, ◌>>=◌}
use ravana.Dict.{Dict, get, put, get-put}
use ravana.Value.{Value, Entries, obj, null}
use ravana.Tools.{Tool}
use ravana.Tools.Snapshot.{SnapshotRow, object_in, tool_in, pin_rows}
use ravana.Tools.Snapshot.Order.{look}

abbrev pub loaded_as : Option Value → Value
loaded_as none = null
loaded_as (some v) = v

module _ (loads : String → Option Value) where
  -- the tool that a row stands for
  abbrev pub row_tool : SnapshotRow → Tool
  row_tool r = tool_in r (loaded_as (loads r.input_schema))

  abbrev pub Loads : SnapshotRow → Type 0
  Loads r = (d : Entries) × (loads r.input_schema ≡ some (obj d))

  abbrev pub Pins : List SnapshotRow → Dict Tool → Result (Dict Tool) → Type 0
  Pins rows before out =
      (pinned : Dict Tool) × (out ≡ ok pinned)
      × ((name : String) → get pinned name ≡ look row_tool rows name (get before name))

  pub pin_rows-Pins :
      (rows : List SnapshotRow) (before : Dict Tool)
      → All Loads rows
      → Pins rows before (pin_rows loads rows before)
  unfolding pin_rows look
  pin_rows-Pins [] before all = (before, refl, λ name. refl)
  pin_rows-Pins (r ∷ rows) before ((d, loaded), rest) =
      let next = put before r.tool_name (tool_in r (obj d)) in
      let (pinned, eq, looks) = pin_rows-Pins rows next rest in
      (
        pinned,
        ap
              (λ v. object_in v >>= λ schema.
                pin_rows loads rows (put before r.tool_name (tool_in r schema)))
              loaded
            ∙ eq,
        λ name.
            looks name
            ∙ ap (look row_tool rows name) (
                get-put before r.tool_name name (tool_in r (obj d))
                ∙ ap
                    (λ v.
                      if str_eq r.tool_name name
                      then some (tool_in r (loaded_as v))
                      else get before name)
                    (sym loaded)),
      )
