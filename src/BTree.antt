-- ===== src/BTree.antt =====
-- include/btree.h, include/btree.hpp and include/btree_common.h: a B+ tree whose nodes are the
-- elements of one array in a mapped file, and name one another by their positions in it.
pub mod Array
pub mod Nodes
pub mod Copies
pub mod Shape
pub mod Move
pub mod Split
pub mod Insert
mod Tests
use nkvdb.Prelude.{
  ℕ, zero, suc, ◌+◌, ◌-◌, ◌*◌, ◌/◌, Bool, true, false, List, ◌&&◌, not, get_or, set, replicate, ltb,
  leb, ◌==◌, if◌then◌else◌, Option, none, some,
}
use nkvdb.Prelude.Result.{Result, ok, err, exception, assertion, no_fuel, ◌>>=◌}
use Nodes.{Node, insert_value, insert_child, lower_bound, is_full, val_at}

-- `cache` is the node array, `root` the position of `*m_root`.
pub record BTree (V : Type 0) : Type 0 where
  pub cache : ℕ → Node V
  pub cache_size : ℕ
  pub cache_pos : ℕ
  pub root : ℕ

-- Assignment through a `Node::Ptr`.
abbrev pub put : {V : Type 0} → ℕ → Node V → BTree V → BTree V
put w node t = record t { cache = λ x. if x == w then node else t.cache x }

-- What `iner_find` leaves: its result, `out_ptr` (`none` for null) and `out_res`.
pub record Found (V : Type 0) : Type 0 where
  pub found : Bool
  pub out_ptr : Option ℕ
  pub out_res : V

module _ {V : Type 0} (dflt : V) (n : ℕ) where
  -- A node of the array as the file has it at first: zero bytes.
  abbrev pub zero_node : Node V
  zero_node = record {
    vals = replicate (n * 2) (0, dflt);
    vals_size = 0;
    childs = replicate (n * 2) 0;
    childs_size = 0;
    id = 0;
    is_leaf = false;
    parent = 0;
    next = 0;
  }

  -- The nodes after `init_cache`.
  unfoldable pub init_cache : ℕ → Node V
  init_cache x = if x == 1 then record zero_node { is_leaf = true; id = 1 } else zero_node

  -- The position of the child with which a search goes on from an inner node, or `none` at the
  -- place where `iner_find` returns false with its results not set.
  unfoldable pub next_child : ℕ → Node V → Option ℕ
  next_child key node =
      let child : ℕ → ℕ = λ i. get_or node.childs i 0 in
      let low = lower_bound key node.vals_size node.vals in
      let d : ℕ = if (val_at dflt node low).0 == key then low else low - 1 in
      if ltb key (val_at dflt node 0).0
      then some (child 0)
      else if not (node.childs_size == 0)
          && not (node.vals_size == 0)
          && leb (val_at dflt node (node.vals_size - 1)).0 key
      then some (child (node.childs_size - 1))
      else if ltb key (val_at dflt node (d + 1)).0
      then some (child (d + 1))
      else none

  -- The search's end in a leaf.
  unfoldable pub find_in_leaf : ℕ → ℕ → Node V → V → Found V
  find_in_leaf key w node out_res =
      let low = lower_bound key node.vals_size node.vals in
      if low == node.vals_size
      then record { found = false; out_ptr = some w; out_res = out_res }
      else record { found = true; out_ptr = some w; out_res = (val_at dflt node low).1 }

  -- `iner_find`; the fuel bounds the depth.
  unfoldable pub iner_find : ℕ → ℕ → ℕ → Option ℕ → V → BTree V → Result (Found V)
  unfolding next_child find_in_leaf
  iner_find zero key w out_ptr out_res t = err no_fuel
  iner_find (suc fuel) key w out_ptr out_res t = elim (t.cache w).is_leaf [
    | true ↦ ok (find_in_leaf key w (t.cache w) out_res)
    | false ↦ elim (next_child key (t.cache w)) [
      | none ↦ ok (record { found = false; out_ptr = out_ptr; out_res = out_res })
      | some c ↦ iner_find fuel key c out_ptr out_res t
    ]
  ]

  -- `find`.
  unfoldable pub find : ℕ → ℕ → BTree V → Result V
  find fuel key t = iner_find fuel key t.root (some t.root) dflt t >>= λ r.
      ok (if r.found then r.out_res else dflt)

  -- `find_node`.
  unfoldable pub find_node : ℕ → ℕ → BTree V → Result ℕ
  find_node fuel key t = iner_find fuel key t.root (some t.root) dflt t >>= λ r.
      ok (elim r.out_ptr [ none ↦ t.root | some w ↦ w ])

  -- `make_node`: the position of the new node.
  unfoldable pub make_node : BTree V → Result (ℕ × BTree V)
  make_node t =
      if ltb t.cache_size t.cache_pos
      then err exception
      else ok (
        t.cache_pos,
        record t {
          cache = λ x.
              if x == t.cache_pos
              then record (t.cache t.cache_pos) { id = t.cache_pos }
              else t.cache x;
          cache_pos = t.cache_pos + 1;
        },
      )

  -- `rounds` rounds of a copying loop, from `src[i]` on, to `dst[k]` on.
  unfoldable pub copy_elems {ℓ} : {A : Type ℓ} → A → ℕ → ℕ → ℕ → List A → List A → List A
  copy_elems a zero i k src dst = dst
  copy_elems a (suc rounds) i k src dst =
      copy_elems a rounds (i + 1) (k + 1) src (set dst k (get_or src i a))

  -- `childs[i] = 0` for `rounds` places.
  unfoldable pub zero_elems : ℕ → ℕ → List ℕ → List ℕ
  zero_elems zero i xs = xs
  zero_elems (suc rounds) i xs = zero_elems rounds (i + 1) (set xs i 0)

  -- `getNode(childs[i])->parent = p` for `rounds` places.
  unfoldable pub adopt : ℕ → ℕ → ℕ → List ℕ → BTree V → BTree V
  adopt zero i p childs t = t
  adopt (suc rounds) i p childs t =
      let ch = get_or childs i 0 in
      adopt rounds (i + 1) p childs (put ch (record (t.cache ch) { parent = p }) t)

  -- The first half of `split_node`: the values of `node` from the middle on go to `C`, the middle
  -- one only in a leaf; the two are linked; and half of the children go to `C`.
  unfoldable pub halve_vals : Node V → Node V → Node V × Node V
  unfolding copy_elems
  halve_vals node C =
      let half = node.vals_size / 2 in
      let vals_begin : ℕ = if node.is_leaf then half else half + 1 in
      let count = node.vals_size - vals_begin in
      (
        record node { vals_size = half; next = C.id },
        record C {
          is_leaf = node.is_leaf;
          vals = copy_elems (0, dflt) count vals_begin 0 node.vals C.vals;
          vals_size = C.vals_size + count;
          next = node.next;
        },
      )

  unfoldable pub halve_childs : Node V → Node V → Node V × Node V
  unfolding copy_elems zero_elems
  halve_childs node C =
      let new_count = node.childs_size / 2 in
      let moved = node.childs_size - new_count in
      (
        record node { childs = zero_elems moved new_count node.childs; childs_size = new_count },
        record C {
          childs = copy_elems 0 moved new_count 0 node.childs C.childs;
          childs_size = new_count;
        },
      )

  unfoldable pub move_half : ℕ → ℕ → BTree V → BTree V
  unfolding halve_vals halve_childs adopt
  move_half w c t =
      let (node, C) = halve_vals (t.cache w) (t.cache c) in
      let (node', C') = halve_childs node C in
      if node.childs_size == 0
      then put c C (put w node t)
      else adopt (node.childs_size - node.childs_size / 2) (node.childs_size / 2) C.id node.childs
          (put c C' (put w node' t))

  -- The new root `r` gets the middle value, and the two halves as its children.
  unfoldable pub add_root : ℕ → ℕ → ℕ × V → ℕ → BTree V → BTree V
  add_root w c midle r t =
      let t₁ = put t.root (record (t.cache t.root) { parent = r }) t in
      let R = insert_value dflt midle.0 midle.1 (t₁.cache r) in
      let R' = record R {
        childs =
            set (set R.childs R.childs_size (t₁.cache w).id) (R.childs_size + 1) (t₁.cache c).id;
        childs_size = R.childs_size + 2;
      } in
      let t₂ = put r R' (record t₁ { root = r }) in
      let t₃ = put w (record (t₂.cache w) { parent = r }) t₂ in
      put c (record (t₃.cache c) { parent = r }) t₃

  -- The second half: the middle value and `C` are put into the parent of the node, or a new root
  -- above the two. The result is the position of `node2insert`.
  unfoldable pub insert_to_parent : ℕ → ℕ → ℕ × V → BTree V → Result (ℕ × BTree V)
  unfolding make_node add_root
  insert_to_parent w c midle t =
      let p = (t.cache w).parent in
      let up = do
        P ← insert_child dflt midle.0 (t.cache c).id (insert_value dflt midle.0 midle.1 (t.cache p))
        let t' = put p P t
        ok (p, put c (record (t'.cache c) { parent = p }) t')
      in let new_root = do m ← make_node t; ok (m.0, add_root w c midle m.0 m.1)
        in if p == 0 then new_root else up

  -- `split_node`; the fuel bounds the height of the tree.
  unfoldable pub split_node : ℕ → ℕ → BTree V → Result (BTree V)
  unfolding make_node move_half insert_to_parent
  split_node zero w t = err no_fuel
  split_node (suc fuel) w t = do
    m ← make_node t
    let midle = val_at dflt (m.1.cache w) ((m.1.cache w).vals_size / 2)
    r ← insert_to_parent w m.0 midle (move_half w m.0 m.1)
    elim (is_full n (r.1.cache r.0)) [ true ↦ split_node fuel r.0 r.1 | false ↦ ok r.1 ]

  -- `insert`, which always returns true.
  unfoldable pub insert : ℕ → ℕ → V → BTree V → Result (BTree V)
  unfolding iner_find split_node
  insert fuel key val t = do
    r ← iner_find fuel key t.root none dflt t
    elim r.out_ptr [
      | none ↦ err assertion
      | some w ↦
          let t' = put w (insert_value dflt key val (t.cache w)) t in
          if is_full n (t.cache w) then split_node fuel w t' else ok t'
    ]
