-- ===== src/StateMerge/Laws.antt =====
-- What a merge does to each key.
use ravana.Prelude.{
  String, ◌≡◌, refl, ◌∙◌, sym, Bool, true, false, Option, none, some, [], ◌∷◌, str_eq, str_eq→eq,
  ap, subst, subst₂, contains, arith, Bool-cases, inl, inr, zero, suc, str_eq_refl, or_else,
  if◌then◌else◌,
}
use ravana.Prelude.Int.{pos, negsuc}
use ravana.Exception.{ok, >>=-eq-ok}
use ravana.Dict.{Dict, IsDict, get, put, keys, get-put, get-put_self}
use ravana.Value.{
  Value, State, null, bool, int, str, arr, obj, Elements, nil, cons, Entries, end, field, concat,
  truthy, get_field, set_field, update,
}
use ravana.Schema.{MergePolicy, overwrite, merge_object, append, StateConfig}
use ravana.StateMerge.{policy_of, merge_value, merge_into, merge_delta, append_to, objects}

-- the new value if there is one, or else the old
abbrev pub or_old : Option Value → Option Value → Option Value
or_old none old = old
or_old (some new) old = some new

-- A list after a value was appended to it: a list's items, or the value itself.
abbrev pub Appended : Elements → Value → Option Value → Type 0
Appended xs (arr ys) after = after ≡ some (arr (concat xs ys))
Appended xs v after = after ≡ some (arr (concat xs (cons v nil)))

-- the value of an object's last entry with a name
abbrev pub last_field : Entries → String → Option Value
last_field end j = none
last_field (field k v b) j = or_old (last_field b j) (if str_eq k j then some v else none)

-- An object after one was laid over it: every name has the new object's value, or else the old.
abbrev pub Overlaid : Entries → Value → Option Value → Type 0
Overlaid a v after =
    (b : Entries) × (c : Entries) × (v ≡ obj b)
    × (after ≡ some (obj c))
    × ((j : String) → get_field c j ≡ or_old (last_field b j) (get_field a j))

-- A key of the delta after a merge, by its policy (overwrite without one), its value before, if it
-- had one, and the delta's value. A value that is false in Python counts as the empty list or
-- object.
abbrev pub Merged : Option MergePolicy → Option Value → Value → Option Value → Type 0
Merged none before v after = after ≡ some v
Merged (some overwrite) before v after = after ≡ some v
Merged (some policy) none v after = after ≡ some v
Merged (some append) (some (arr xs)) v after = Appended xs v after
Merged (some append) (some old) v after = (truthy old ≡ false) × Appended nil v after
Merged (some merge_object) (some (obj a)) v after = Overlaid a v after
Merged (some merge_object) (some old) v after = (truthy old ≡ false) × Overlaid end v after

-- One key after a merge: as it was when the delta does not have it.
abbrev pub MergedKey : Option MergePolicy → Option Value → Option Value → Option Value → Type 0
MergedKey policy before none after = after ≡ before
MergedKey policy before (some v) after = Merged policy before v after

module _ (fields : Dict MergePolicy) where
  -- The same with the code's merge of one value.
  abbrev Kept : String → Option Value → Option Value → Option Value → Type 0
  Kept k before none after = after ≡ before
  Kept k before (some v) after =
      (w : Value) × (merge_value (policy_of fields k) before v ≡ ok w) × (after ≡ some w)

  merge_into_untouched :
      (merged delta : State) (k : String) (out : State)
      → merge_into fields merged delta ≡ ok out
      → contains (keys delta) k ≡ false
      → get out k ≡ get merged k
  unfolding merge_into
  merge_into_untouched merged [] k out h absent = cc
  merge_into_untouched merged ((key, value) ∷ delta) k out h absent =
      let (new, _, rest) =
        >>=-eq-ok (merge_value (policy_of fields key) (get merged key) value)
          (λ new. merge_into fields (put merged key new) delta) h in
      merge_into_untouched (put merged key new) delta k out rest (ground arith)
      ∙ ground (arith, get-put merged key k new)

  merge_into-Kept :
      (merged delta : State) (k : String) (out : State)
      → IsDict delta
      → merge_into fields merged delta ≡ ok out
      → Kept k (get merged k) (get delta k) (get out k)
  unfolding merge_into get
  merge_into-Kept merged [] k out d h = cc
  merge_into-Kept merged ((key, value) ∷ delta) k out d h =
      let (new, made, rest) =
        >>=-eq-ok (merge_value (policy_of fields key) (get merged key) value)
          (λ new. merge_into fields (put merged key new) delta) h in
      elim (Bool-cases (str_eq key k)) [
        | inl same ↦
            let e : key ≡ k = str_eq→eq key k same in
            rw (same, ← e)
              (
                new,
                made,
                merge_into_untouched (put merged key new) delta key out rest d.0
                    ∙ get-put_self merged key new,
              )
        | inr other ↦ rw other (
            subst (λ before. Kept k before (get delta k) (get out k)) (rw get-put (rw other))
              (merge_into-Kept (put merged key new) delta k out d.1 rest))
      ]

get_field-set_field :
    (a : Entries) (k j : String) (v : Value)
    → get_field (set_field a k v) j ≡ (if str_eq k j then some v else get_field a j)
unfolding get_field set_field
get_field-set_field end k j v = refl
get_field-set_field (field i w a) k j v = elim (Bool-cases (str_eq i k)) [
  | inl same ↦ let e : i ≡ k = str_eq→eq i k same in rw (same, ← e) (ground arith)
  | inr other ↦
      ground
        (arith, get_field-set_field a k j v, other, str_eq→eq i j, str_eq→eq k j, str_eq_refl i)
]

or_old-if :
    (b : Bool) (newest : Option Value) (v : Value) (old : Option Value)
    → or_old newest (if b then some v else old)
      ≡ or_old (or_old newest (if b then some v else none)) old
or_old-if true none v old = refl
or_old-if false none v old = refl
or_old-if b (some w) v old = refl

get_field-update :
    (a b : Entries) (j : String)
    → get_field (update a b) j ≡ or_old (last_field b j) (get_field a j)
unfolding update
get_field-update a end j = refl
get_field-update a (field k v b) j =
    get_field-update (set_field a k v) b j
    ∙ ap (or_old (last_field b j)) (get_field-set_field a k j v)
    ∙ or_old-if (str_eq k j) (last_field b j) v (get_field a j)

append_to-Appended :
    (xs : Elements) (v w : Value) → append_to (arr xs) v ≡ ok w → Appended xs v (some w)
append_to-Appended xs null w h = cc
append_to-Appended xs (bool b) w h = cc
append_to-Appended xs (int n) w h = cc
append_to-Appended xs (str s) w h = cc
append_to-Appended xs (arr ys) w h = cc
append_to-Appended xs (obj b) w h = cc

objects-Overlaid : (a : Entries) (v w : Value) → objects (obj a) v ≡ ok w → Overlaid a v (some w)
objects-Overlaid a (obj b) w h = (b, update a b, refl, cc, get_field-update a b)
objects-Overlaid a null w h = cc
objects-Overlaid a (bool b) w h = cc
objects-Overlaid a (int n) w h = cc
objects-Overlaid a (str s) w h = cc
objects-Overlaid a (arr ys) w h = cc

merge_value-append_old :
    (old v w : Value)
    → merge_value append (some old) v ≡ ok w
    → Merged (some append) (some old) v (some w)
unfolding merge_value
merge_value-append_old null v w h = (refl, append_to-Appended nil v w h)
merge_value-append_old (bool false) v w h = (refl, append_to-Appended nil v w h)
merge_value-append_old (bool true) v w h = cc
merge_value-append_old (int (pos zero)) v w h = (refl, append_to-Appended nil v w h)
merge_value-append_old (int (pos (suc n))) v w h = cc
merge_value-append_old (int (negsuc n)) v w h = cc
merge_value-append_old (str String.[]) v w h = (refl, append_to-Appended nil v w h)
merge_value-append_old (str (String.◌∷◌ ch s)) v w h = cc
merge_value-append_old (arr nil) v w h = append_to-Appended nil v w h
merge_value-append_old (arr (cons x xs)) v w h = append_to-Appended (cons x xs) v w h
merge_value-append_old (obj end) v w h = (refl, append_to-Appended nil v w h)
merge_value-append_old (obj (field k u d)) v w h = cc

merge_value-merge_old :
    (old v w : Value)
    → merge_value merge_object (some old) v ≡ ok w
    → Merged (some merge_object) (some old) v (some w)
unfolding merge_value
merge_value-merge_old null v w h = (refl, objects-Overlaid end v w h)
merge_value-merge_old (bool false) v w h = (refl, objects-Overlaid end v w h)
merge_value-merge_old (bool true) v w h = cc
merge_value-merge_old (int (pos zero)) v w h = (refl, objects-Overlaid end v w h)
merge_value-merge_old (int (pos (suc n))) v w h = cc
merge_value-merge_old (int (negsuc n)) v w h = cc
merge_value-merge_old (str String.[]) v w h = (refl, objects-Overlaid end v w h)
merge_value-merge_old (str (String.◌∷◌ ch s)) v w h = cc
merge_value-merge_old (arr nil) v w h = (refl, objects-Overlaid end v w h)
merge_value-merge_old (arr (cons x xs)) v w h = cc
merge_value-merge_old (obj end) v w h = objects-Overlaid end v w h
merge_value-merge_old (obj (field k u d)) v w h = objects-Overlaid (field k u d) v w h

-- The code's merge of one value does what the policy says.
merge_value-Merged :
    (policy : Option MergePolicy) (before : Option Value) (v w : Value)
    → merge_value (or_else policy overwrite) before v ≡ ok w
    → Merged policy before v (some w)
unfolding merge_value
merge_value-Merged none before v w h = cc
merge_value-Merged (some overwrite) before v w h = cc
merge_value-Merged (some append) none v w h = cc
merge_value-Merged (some merge_object) none v w h = cc
merge_value-Merged (some append) (some old) v w h = merge_value-append_old old v w h
merge_value-Merged (some merge_object) (some old) v w h = merge_value-merge_old old v w h

merge_delta-Kept :
    (s d : State) (config : StateConfig) (k : String) {out : State}
    → IsDict d
    → merge_delta s d config ≡ ok out
    → Kept config.fields k (get s k) (get d k) (get out k)
unfolding merge_delta
merge_delta-Kept s d config k {out} dict h = merge_into-Kept config.fields s d k out dict h

Kept-MergedKey :
    (fields : Dict MergePolicy) (k : String) (before new after : Option Value)
    → Kept fields k before new after
    → MergedKey (get fields k) before new after
unfolding policy_of
Kept-MergedKey fields k before none after kept = kept
Kept-MergedKey fields k before (some v) after (w, made, found) =
    subst (Merged (get fields k) before v) (sym found)
      (merge_value-Merged (get fields k) before v w made)

-- After a merge that succeeds, of a delta with no key twice, every key is as its policy says. A key
-- outside the delta keeps its value. A key with `overwrite` or no policy, or that had no value, has
-- the delta's value. With `append`, it has its old list, or the empty one for an old value that is
-- false, followed by the delta's list or value. With `merge_object` it has an object, in which every
-- name has the value of the delta's object, or else that of the old object.
pub merge_delta-MergedKey :
    (shared_state delta : State) (config : StateConfig) (k : String) {out : State}
    → IsDict delta
    → merge_delta shared_state delta config ≡ ok out
    → MergedKey (get config.fields k) (get shared_state k) (get delta k) (get out k)
merge_delta-MergedKey shared_state delta config k {out} d h =
    Kept-MergedKey config.fields k (get shared_state k) (get delta k) (get out k)
      (merge_delta-Kept shared_state delta config k d h)

merge_value-append :
    (old xs : Elements) → merge_value append (some (arr old)) (arr xs) ≡ ok (arr (concat old xs))
unfolding merge_value
merge_value-append nil xs = refl
merge_value-append (cons x old) xs = refl

module _ (config : StateConfig) (k : String) (p : policy_of config.fields k ≡ append) where
  merge_delta_append :
      (s d out : State) (old xs : Elements)
      → IsDict d
      → get s k ≡ some (arr old)
      → get d k ≡ some (arr xs)
      → merge_delta s d config ≡ ok out
      → get out k ≡ some (arr (concat old xs))
  merge_delta_append s d out old xs dict before new h =
      let (w, made, found) =
        subst₂ (λ b v. Kept config.fields k b v (get out k)) before new
          (merge_delta-Kept s d config k dict h) in
      cc (made, found, p, merge_value-append old xs)

-- When a key with the policy `append` holds a list, and two deltas that carry lists for it are
-- merged in turn with success, the key holds the three lists one after another.
pub merge_delta_append_both :
    (config : StateConfig) (s m out d e : State) (k : String) (old xs ys : Elements)
    → IsDict d
    → IsDict e
    → policy_of config.fields k ≡ append
    → get s k ≡ some (arr old)
    → get d k ≡ some (arr xs)
    → get e k ≡ some (arr ys)
    → merge_delta s d config ≡ ok m
    → merge_delta m e config ≡ ok out
    → get out k ≡ some (arr (concat (concat old xs) ys))
merge_delta_append_both config s m out d e k old xs ys dd de p gs gd ge hm ho =
    merge_delta_append config k p m e out (concat old xs) ys de
      (merge_delta_append config k p s d m old xs dd gs gd hm) ge ho
