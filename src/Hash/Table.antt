-- ===== src/Hash/Table.antt =====
-- The table and its operations. The code's `h->slots` is positive wherever a key is looked up.
use xdebug.Prelude.{
  ℕ, ◌+◌, ◌-◌, Bool, true, false, Option, none, some, List, [], ◌∷◌, ◌++◌, if◌then◌else◌, get_or,
  set, replicate, equal,
}
use xdebug.Hash.Keys.{Key, find_slot}
use xdebug.Hash.Chain
use xdebug.Hash.Keys
use xdebug.Hash.Chain.{Element}

-- struct _xdebug_hash. `destroyed` logs the values given to the destructor, the last one first;
-- `dtor` says whether there is one.
pub record Hash {ℓ} (V : Type ℓ) : Type ℓ where
  pub table : List (List (Element V))
  pub dtor : Bool
  pub slots : ℕ
  pub size : ℕ
  pub destroyed : List V

module _ {ℓ} {V : Type ℓ} where
  -- xdebug_hash_alloc
  unfoldable pub alloc : ℕ → Bool → Hash V
  alloc slots dtor = record {
    table = replicate slots [];
    dtor = dtor;
    slots = slots;
    size = 0;
    destroyed = [];
  }

  -- `h->table[slot]`
  abbrev pub chain_of : Hash V → Key → List (Element V)
  chain_of h k = get_or h.table (find_slot k h.slots) []

  abbrev pub destroy_one : Hash V → V → List V
  destroy_one h old = if h.dtor then old ∷ h.destroyed else h.destroyed

  -- xdebug_hash_add_or_update; it always returns 1, since xdebug_llist_insert_next does
  unfoldable pub add_or_update : Hash V → Key → V → Hash V
  add_or_update h k p = elim (Chain.find k (chain_of h k)) [
    | some old ↦ record h {
      table = set h.table (find_slot k h.slots) (Chain.assign k p (chain_of h k));
      destroyed = destroy_one h old;
    }
    | none ↦ record h {
      table = set h.table (find_slot k h.slots) (chain_of h k ++ record { key = k; ptr = p } ∷ []);
      size = h.size + 1;
    }
  ]

  -- The object under a key is changed through the pointer that a lookup returned.
  unfoldable pub change : Hash V → Key → V → Hash V
  change h k p = record h {
    table = set h.table (find_slot k h.slots) (Chain.assign k p (chain_of h k));
  }

  -- xdebug_hash_extended_delete
  unfoldable pub delete : Hash V → Key → Hash V × Bool
  delete h k = elim (Chain.find k (chain_of h k)) [
    | some old ↦ (
      record h {
        table = set h.table (find_slot k h.slots) (Chain.remove k (chain_of h k));
        size = h.size - 1;
        destroyed = destroy_one h old;
      },
      true,
    )
    | none ↦ (h, false)
  ]

  -- xdebug_hash_extended_find
  unfoldable pub find : Hash V → Key → Option V
  find h k = Chain.find k (chain_of h k)

  -- the inner and the outer loop of xdebug_hash_apply; a callback changes a state `S`
  unfoldable pub apply_chain {κ} : {S : Type κ} → (S → Element V → S) → S → List (Element V) → S
  apply_chain cb s [] = s
  apply_chain cb s (e ∷ c) = apply_chain cb (cb s e) c

  unfoldable pub apply_table {κ} :
      {S : Type κ} → (S → Element V → S) → S → List (List (Element V)) → S
  apply_table cb s [] = s
  apply_table cb s (c ∷ t) = apply_table cb (apply_chain cb s c) t

  unfoldable pub apply {κ} : {S : Type κ} → Hash V → S → (S → Element V → S) → S
  apply h s cb = apply_table cb s h.table

  -- the elements as the loops meet them, slot by slot
  unfoldable pub elements : List (List (Element V)) → List (Element V)
  elements [] = []
  elements (c ∷ t) = c ++ elements t

  -- xdebug_hash_apply_with_argument; `sort` is qsort with the table's sorter, if it has one
  unfoldable pub apply_with_argument {κ} :
      {S : Type κ}
      → Option (List (Element V) → List (Element V))
      → Hash V
      → S
      → (S → Element V → S)
      → S
  apply_with_argument (some sort) h s cb = apply_chain cb s (sort (elements h.table))
  apply_with_argument none h s cb = apply_table cb s h.table

  unfoldable pub pointers : List (Element V) → List V
  pointers [] = []
  pointers (e ∷ c) = e.ptr ∷ pointers c

  -- xdebug_llist_empty takes the chain from its tail, so that the head is destroyed last
  unfoldable pub empty_chains : List (List (Element V)) → Bool → List V → List V
  empty_chains [] dtor log = log
  empty_chains (c ∷ t) dtor log = empty_chains t dtor (if dtor then pointers c ++ log else log)

  -- xdebug_hash_empty
  unfoldable pub empty : Hash V → Hash V
  empty h = record h {
    table = replicate h.slots [];
    destroyed = empty_chains h.table h.dtor h.destroyed;
  }

-- What a run of the operations computes with.
unfoldable pub hash_program : Unit {0}
unfolding Keys.find_slot Keys.key_compare Keys.hash_str Keys.hash_num equal Chain.find Chain.assign
    Chain.remove apply_chain apply_table elements pointers empty_chains alloc add_or_update change
    delete find apply apply_with_argument empty
hash_program = tt
