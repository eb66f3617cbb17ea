-- ===== src/Dict/Run.antt =====
-- src/dict.c: any sequence of calls on a dictionary, and the same calls on a map.
use mathlib.Core.Path.{subst}
use prez.Prelude.{ℕ, ◌≡◌, refl, ap, ◌∙◌, Bool, not, List, [], ◌∷◌, Option, none, some}
use prez.Log.{◌>>=◌}
use prez.Dict.{Dict, DictType, is_some, dict_resize, dict_rehash}
use prez.Dict.Operations.{dict_find, dict_add, dict_generic_delete, dict_replace}
use prez.Dict.Chains.{Lawful}
use prez.Dict.Tables.{put}
use prez.Dict.Valid.{content, Valid, Holds}
use prez.Dict.Expand.{dict_resize_lem}
use prez.Dict.Progress.{dict_rehash-Rehashed}
use prez.Dict.Laws.{dict_find_lem, dict_generic_delete_lem}
use prez.Dict.Store.{added, dict_add_lem, dict_replace_lem}

pub data Operation (K V : Type 0) : Type 0 where
  find : K → Operation K V
  add : K → V → Operation K V
  replace : K → V → Operation K V
  delete : K → Operation K V
  resize : Operation K V
  rehash : ℕ → Operation K V

-- What a call returns. What dictResize and dictRehash return is about the tables, and left out.
pub data Reply (V : Type 0) : Type 0 where
  found : Option V → Reply V
  told : Bool → Reply V
  quiet : Reply V

module _ {K V : Type 0} (type : DictType K) (can_resize : Bool) where
  unfoldable pub call : Operation K V → Dict K V → Option (Reply V × Dict K V)
  unfolding dict_find dict_add dict_replace dict_generic_delete dict_resize dict_rehash
  call (find key) d = dict_find type d key >>= λ r. some (found r.0, r.1)
  call (add key val) d = dict_add type can_resize d key val >>= λ r. some (told r.0, r.1)
  call (replace key val) d = dict_replace type can_resize d key val >>= λ r. some (told r.0, r.1)
  call (delete key) d = dict_generic_delete type d key >>= λ r. some (told r.0, r.1)
  call resize d = some (quiet, (dict_resize can_resize d).1)
  call (rehash n) d = dict_rehash type d n >>= λ r. some (quiet, r.1)

  unfoldable pub calls : List (Operation K V) → Dict K V → Option (List (Reply V) × Dict K V)
  unfolding call
  calls [] d = some ([], d)
  calls (op ∷ ops) d = do r ← call op d; rest ← calls ops r.1; some (r.0 ∷ rest.0, rest.1)

module _ {K V : Type 0} (type : DictType K) where
  -- The reply of a map to a call, and the map afterwards.
  abbrev pub reply_of : Operation K V → (K → Option V) → Reply V
  reply_of (find key) f = found (f key)
  reply_of (add key val) f = told (not (is_some (f key)))
  reply_of (replace key val) f = told (not (is_some (f key)))
  reply_of (delete key) f = told (is_some (f key))
  reply_of resize f = quiet
  reply_of (rehash n) f = quiet

  abbrev pub changed_by : Operation K V → (K → Option V) → K → Option V
  changed_by (find key) f = f
  changed_by (add key val) f = added type f key val
  changed_by (replace key val) f = put type f key (some val)
  changed_by (delete key) f = put type f key none
  changed_by resize f = f
  changed_by (rehash n) f = f

  abbrev pub replies : List (Operation K V) → (K → Option V) → List (Reply V)
  replies [] f = []
  replies (op ∷ ops) f = reply_of op f ∷ replies ops (changed_by op f)

  abbrev pub changed_by_all : List (Operation K V) → (K → Option V) → K → Option V
  changed_by_all [] f = f
  changed_by_all (op ∷ ops) f = changed_by_all ops (changed_by op f)

module _ {K V : Type 0} (type : DictType K) (law : Lawful type) (can_resize : Bool) where
  abbrev Called : Operation K V → Dict K V → (K → Option V) → Type 0
  Called op d f =
      (e : Dict K V) × (call type can_resize op d ≡ some (reply_of type op f, e))
      × Holds type e (changed_by type op f)

  call-Called : (op : Operation K V) (d : Dict K V) → Valid type d → Called op d (content type d)
  unfolding call
  call-Called (find key) d v =
      let (e, eq, h) = dict_find_lem type law d key v in
      (e, ap (λ o. o >>= λ r. some (found r.0, r.1)) eq, h)
  call-Called (add key val) d v =
      let (e, eq, h) = dict_add_lem type law can_resize d key val v in
      (e, ap (λ o. o >>= λ r. some (told r.0, r.1)) eq, h)
  call-Called (replace key val) d v =
      let (e, eq, h) = dict_replace_lem type law can_resize d key val v in
      (e, ap (λ o. o >>= λ r. some (told r.0, r.1)) eq, h)
  call-Called (delete key) d v =
      let (e, eq, h) = dict_generic_delete_lem type law d key v in
      (e, ap (λ o. o >>= λ r. some (told r.0, r.1)) eq, h)
  call-Called resize d v =
      let (done, e, eq, h, few) = dict_resize_lem type can_resize d v in
      (e, ap (λ r. some (quiet, r.1)) eq, h)
  call-Called (rehash n) d v =
      let q = dict_rehash-Rehashed type law d n v in
      (q.after, ap (λ o. o >>= λ r. some (quiet, r.1)) q.result, q.kept)

  -- A dictionary is a map. Let the comparison of keys be an equivalence that the hash function
  -- respects, and a dictionary in order hold a map. Then any sequence of calls of dictFind, dictAdd,
  -- dictReplace, dictDelete, dictResize and dictRehash returns, whether or not tables may grow and
  -- entries are on the move, each call answers what the map answers, and afterwards the dictionary
  -- is in order and holds the map with the changes of the calls.
  pub calls-replies :
      (ops : List (Operation K V)) (d : Dict K V) (f : K → Option V)
      → Holds type d f
      → (e : Dict K V) × (calls type can_resize ops d ≡ some (replies type ops f, e))
        × Holds type e (changed_by_all type ops f)
  unfolding calls
  calls-replies [] d f h = (d, refl, h)
  calls-replies (op ∷ ops) d f h =
      let same : content type d ≡ f = λ i l. h.holds l i in
      let (e, eq, g) = subst (Called op d) same (call-Called op d h.valid) in
      let (e', eq', g') = calls-replies ops e (changed_by type op f) g in
      (
        e',
        ap (λ o. o >>= λ r. calls type can_resize ops r.1 >>= λ rest. some (r.0 ∷ rest.0, rest.1))
              eq
            ∙ ap (λ o. o >>= λ rest. some (reply_of type op f ∷ rest.0, rest.1)) eq',
        g',
      )
