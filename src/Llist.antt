-- ===== src/Llist.antt =====
-- src/lib/llist.c: a doubly linked list of nodes in memory.
pub mod Segments
pub mod Refinement
use xdebug.Prelude.{
  ℕ, zero, suc, ◌+◌, ◌-◌, Bool, true, false, Option, none, some, List, [], ◌∷◌, ◌++◌, if◌then◌else◌,
  ◌==◌,
}

module _ (A : Type 0) where
  -- struct _xdebug_llist_element; a pointer is an address, NULL is `none`
  pub record Node : Type 0 where
    pub ptr : A
    pub prev : Option ℕ
    pub next : Option ℕ

  -- The memory of the nodes, the next address that malloc gives, the fields of struct _xdebug_llist,
  -- and the values that its destructor was called on.
  pub record Llist : Type 0 where
    pub cells : ℕ → Option Node
    pub fresh : ℕ
    pub head : Option ℕ
    pub tail : Option ℕ
    pub size : ℕ
    pub destroyed : List A

-- the element to insert at: the one given, or another when it is NULL
abbrev pub or_else_at : Option ℕ → Option ℕ → Option ℕ
or_else_at none other = other
or_else_at (some a) other = some a

abbrev pub points_to : Option ℕ → ℕ → Bool
points_to none a = false
points_to (some b) a = b == a

module _ {A : Type 0} where
  -- a write to one address
  abbrev pub update : (ℕ → Option (Node A)) → ℕ → Option (Node A) → ℕ → Option (Node A)
  update cells a node b = if b == a then node else cells b

  -- `e->prev = v` and `e->next = v`; `none` where e is not a node
  unfoldable pub write_prev : (ℕ → Option (Node A)) → ℕ → Option ℕ → Option (ℕ → Option (Node A))
  write_prev cells a v = elim (cells a) [
    | none ↦ none
    | some node ↦ some (update cells a (some (record node { prev = v })))
  ]

  unfoldable pub write_next : (ℕ → Option (Node A)) → ℕ → Option ℕ → Option (ℕ → Option (Node A))
  write_next cells a v = elim (cells a) [
    | none ↦ none
    | some node ↦ some (update cells a (some (record node { next = v })))
  ]

  -- xdebug_llist_init
  unfoldable pub llist_init : Llist A
  llist_init = record {
    cells = λ a. none;
    fresh = 0;
    head = none;
    tail = none;
    size = 0;
    destroyed = [];
  }

  -- the insertion into an empty list
  unfoldable pub insert_first : Llist A → A → Llist A
  insert_first l p = record l {
    cells = update l.cells l.fresh (some (record { ptr = p; prev = none; next = none }));
    fresh = suc l.fresh;
    head = some l.fresh;
    tail = some l.fresh;
    size = suc l.size;
  }

  -- the list after an insertion, with the memory that its writes left
  abbrev pub inserted : Llist A → Option ℕ → Option ℕ → (ℕ → Option (Node A)) → Llist A
  inserted l head tail cells = record l {
    cells = cells;
    fresh = suc l.fresh;
    head = head;
    tail = tail;
    size = suc l.size;
  }

  -- the writes of xdebug_llist_insert_next to the next element and to the one at `a`
  unfoldable pub link_behind : Llist A → ℕ → (ℕ → Option (Node A)) → Option ℕ → Option (Llist A)
  link_behind l a cells none = elim (write_next cells a (some l.fresh)) [
    | none ↦ none
    | some cells' ↦ some (inserted l l.head (some l.fresh) cells')
  ]
  link_behind l a cells (some b) = elim (write_prev cells b (some l.fresh)) [
    | none ↦ none
    | some cells' ↦ elim (write_next cells' a (some l.fresh)) [
      | none ↦ none
      | some cells'' ↦ some (inserted l l.head l.tail cells'')
    ]
  ]

  -- the new element behind the one at `a`
  unfoldable pub link_next : Llist A → ℕ → A → Node A → Option (Llist A)
  link_next l a p node =
      link_behind l a
        (update l.cells l.fresh (some (record { ptr = p; prev = some a; next = node.next })))
        node.next

  -- the node that a pointer points to
  abbrev pub node_at : (ℕ → Option (Node A)) → Option ℕ → Option (ℕ × Node A)
  node_at cells none = none
  node_at cells (some a) = elim (cells a) [ none ↦ none | some node ↦ some (a, node) ]

  -- xdebug_llist_insert_next; `none` is the use of a pointer that points to no node
  unfoldable pub insert_next : Llist A → Option ℕ → A → Option (Llist A)
  insert_next l e p =
      if l.size == 0
      then some (insert_first l p)
      else elim (node_at l.cells (or_else_at e l.tail)) [
        | none ↦ none
        | some at ↦ link_next l at.0 p at.1
      ]

  -- the writes of xdebug_llist_remove to the neighbours of an element
  unfoldable pub unlink : Llist A → Option ℕ → Option ℕ → Bool → Option (Llist A)
  unlink l prev none true = some (record l { head = none; tail = none })
  unlink l prev (some b) true = elim (write_prev l.cells b none) [
    | none ↦ none
    | some cells ↦ some (record l { cells = cells; head = some b })
  ]
  unlink l none next false = none
  unlink l (some c) none false = elim (write_next l.cells c none) [
    | none ↦ none
    | some cells ↦ some (record l { cells = cells; tail = some c })
  ]
  unlink l (some c) (some b) false = elim (write_next l.cells c (some b)) [
    | none ↦ none
    | some cells ↦ elim (write_prev cells b (some c)) [
      | none ↦ none
      | some cells' ↦ some (record l { cells = cells' })
    ]
  ]

  -- the destructor, `free` and the size
  abbrev pub released : ℕ → A → Option (Llist A) → Option (Llist A)
  released a p none = none
  released a p (some l) = some (record l {
    cells = update l.cells a none;
    size = l.size - 1;
    destroyed = l.destroyed ++ (p ∷ []);
  })

  -- xdebug_llist_remove
  unfoldable pub remove : Llist A → Option ℕ → Option (Llist A)
  remove l none = some l
  remove l (some a) = if l.size == 0 then some l else elim (l.cells a) [
    | none ↦ none
    | some node ↦ released a node.ptr (unlink l node.prev node.next (points_to l.head a))
  ]

  -- the writes of xdebug_llist_insert_prev before the node at `a`
  unfoldable pub link_before : Llist A → ℕ → (ℕ → Option (Node A)) → Option ℕ → Option (Llist A)
  link_before l a cells none = elim (write_prev cells a (some l.fresh)) [
    | none ↦ none
    | some cells' ↦ some (inserted l (some l.fresh) l.tail cells')
  ]
  link_before l a cells (some b) = elim (write_next cells b (some l.fresh)) [
    | none ↦ none
    | some cells' ↦ elim (write_prev cells' a (some l.fresh)) [
      | none ↦ none
      | some cells'' ↦ some (inserted l l.head l.tail cells'')
    ]
  ]

  -- xdebug_llist_insert_prev
  unfoldable pub insert_prev : Llist A → Option ℕ → A → Option (Llist A)
  insert_prev l e p =
      if l.size == 0
      then some (insert_first l p)
      else elim (node_at l.cells (or_else_at e l.head)) [
        | none ↦ none
        | some at ↦
            link_before l at.0
              (update l.cells l.fresh
                (some (record { ptr = p; prev = at.1.prev; next = some at.0 })))
              at.1.prev
      ]

  -- xdebug_llist_remove_next and xdebug_llist_remove_prev
  unfoldable pub remove_next : Llist A → ℕ → Option (Llist A)
  remove_next l a = elim (l.cells a) [ none ↦ none | some node ↦ remove l node.next ]

  unfoldable pub remove_prev : Llist A → ℕ → Option (Llist A)
  remove_prev l a = elim (l.cells a) [ none ↦ none | some node ↦ remove l node.prev ]

  -- xdebug_llist_jump, from the head or from the tail; the outer `none` is a NULL that is followed
  unfoldable pub jump_next : Llist A → ℕ → Option ℕ → Option (Option ℕ)
  jump_next l zero e = some e
  jump_next l (suc pos) e = elim (node_at l.cells e) [
    | none ↦ none
    | some at ↦ jump_next l pos at.1.next
  ]

  unfoldable pub jump_prev : Llist A → ℕ → Option ℕ → Option (Option ℕ)
  jump_prev l zero e = some e
  jump_prev l (suc pos) e = elim (node_at l.cells e) [
    | none ↦ none
    | some at ↦ jump_prev l pos at.1.prev
  ]

  -- the loop of xdebug_llist_empty: each round removes the tail
  unfoldable pub empty_loop : ℕ → Llist A → Option (Llist A)
  empty_loop zero l = some l
  empty_loop (suc fuel) l = elim l.tail [
    | none ↦ some l
    | some a ↦
        if l.size == 0
        then some l
        else elim (remove l (some a)) [ none ↦ none | some l' ↦ empty_loop fuel l' ]
  ]

  -- xdebug_llist_empty: no more rounds than elements
  unfoldable pub llist_empty : Llist A → Option (Llist A)
  llist_empty l = empty_loop l.size l
