-- ===== src/BTree/Split/Top.antt =====
-- The round of `split_node` of include/btree.hpp on the root.
use nkvdb.Prelude.{
  ℕ, ◌+◌, ◌-◌, ◌≤◌, ◌≡◌, ◌≢◌, refl, sym, ap, ◌∙◌, false, arith, ltb, ◌==◌, if◌then◌else◌,
  ℕ_discrete, set,
}
use nkvdb.Prelude.Result.{ok, ◌>>=◌}
use nkvdb.BTree.{BTree, put, make_node, move_half, insert_to_parent, add_root}
use nkvdb.BTree.Nodes.{Node, insert_value}
use nkvdb.BTree.Move.{put_at, put_other, adopt_root, adopt_pos}
use nkvdb.BTree.Move.Halves.{first, second, kept, move_leaf, move_inner}
use nkvdb.BTree.Split.Start.{c}
use nkvdb.BTree.Split.Root.{r}

module _ {V : Type 0} (dflt : V) (n : ℕ) (w c : ℕ) (t : BTree V) where
  -- The state after the first half, but for the nodes.
  abbrev halved : BTree V
  halved = put c (second dflt n w c t) (put w (first dflt n w c t) t)

  some_child : (t.cache w).childs_size ≢ 0 → ((t.cache w).childs_size == 0) ≡ false
  some_child ne = ground (arith, ne)

  pub move_half-root : (move_half dflt n w c t).root ≡ t.root
  move_half-root = elim (ℕ_discrete (t.cache w).childs_size 0) [
    | yes e ↦ ap (λ (z : BTree V). z.root) (move_leaf dflt n w c t e)
    | no ne ↦
        ap (λ (z : BTree V). z.root) (move_inner dflt n w c t (some_child ne))
        ∙ adopt_root dflt n ((t.cache w).childs_size - kept dflt n w c t) (kept dflt n w c t)
            (t.cache c).id (t.cache w).childs halved
  ]

  pub move_half-pos :
      ((move_half dflt n w c t).cache_pos ≡ t.cache_pos)
      × ((move_half dflt n w c t).cache_size ≡ t.cache_size)
  move_half-pos = elim (ℕ_discrete (t.cache w).childs_size 0) [
    | yes e ↦
        let is = move_leaf dflt n w c t e in
        (ap (λ (z : BTree V). z.cache_pos) is, ap (λ (z : BTree V). z.cache_size) is)
    | no ne ↦
        let is = move_inner dflt n w c t (some_child ne) in
        let rest =
          adopt_pos dflt n ((t.cache w).childs_size - kept dflt n w c t) (kept dflt n w c t)
            (t.cache c).id (t.cache w).childs halved in
        (
          ap (λ (z : BTree V). z.cache_pos) is ∙ rest.0,
          ap (λ (z : BTree V). z.cache_size) is ∙ rest.1,
        )
  ]

-- The rest of the state with a new root.
pub add_root-state :
    {V : Type 0} (dflt : V) (n w c r : ℕ) (mid : ℕ × V) (t : BTree V)
    → ((add_root dflt n w c mid r t).root ≡ r)
      × ((add_root dflt n w c mid r t).cache_pos ≡ t.cache_pos)
      × ((add_root dflt n w c mid r t).cache_size ≡ t.cache_size)
unfolding add_root
add_root-state dflt n w c r mid t = (refl, refl, refl)

-- The new root, with the two halves below it.
module _ {V : Type 0} (dflt : V) (n w c r : ℕ) (mid : ℕ × V) (t : BTree V) where
  abbrev pub rooted : BTree V
  rooted = record t {
    cache = λ x. if x == r then record (t.cache r) { id = r } else t.cache x;
    cache_pos = r + 1;
  }

  make_node-rooted : t.cache_pos ≡ r → r ≤ t.cache_size → make_node dflt n t ≡ ok (r, rooted)
  unfolding make_node
  make_node-rooted pos_is room =
      let test : ltb t.cache_size r ≡ false = ground (arith, room) in rw (pos_is, test) refl

  pub insert_to_parent_top :
      (t.cache w).parent ≡ 0
      → t.cache_pos ≡ r
      → r ≤ t.cache_size
      → insert_to_parent dflt n w c mid t ≡ ok (r, add_root dflt n w c mid r rooted)
  unfolding insert_to_parent
  insert_to_parent_top parent_is pos_is room =
      let to_new : insert_to_parent dflt n w c mid t
          ≡ (make_node dflt n t >>= λ m. ok (m.0, add_root dflt n w c mid m.0 m.1)) =
        rw parent_is refl in
      to_new
      ∙ ap (λ q. q >>= λ m. ok (m.0, add_root dflt n w c mid m.0 m.1))
          (make_node-rooted pos_is room)

  module _ (root_is : t.root ≡ w) (w_r : w ≢ r) (c_r : c ≢ r) (w_c : w ≢ c)
      (w_id : (t.cache w).id ≡ w) (c_id : (t.cache c).id ≡ c) (no_vals : (t.cache r).vals_size ≡ 0)
      (no_childs : (t.cache r).childs_size ≡ 0) where
    abbrev t₁ : BTree V
    t₁ = put t.root (record (rooted.cache t.root) { parent = r }) rooted

    abbrev R : Node V
    R = insert_value dflt mid.0 mid.1 (t₁.cache r)

    abbrev R' : Node V
    R' = record R {
      childs = set (set R.childs R.childs_size (t₁.cache w).id) (R.childs_size + 1) (t₁.cache c).id;
      childs_size = R.childs_size + 2;
    }

    abbrev t₂ : BTree V
    t₂ = put r R' (record t₁ { root = r })

    abbrev t₃ : BTree V
    t₃ = put w (record (t₂.cache w) { parent = r }) t₂

    abbrev topped : BTree V
    topped = add_root dflt n w c mid r rooted

    rooted_other : (x : ℕ) → x ≢ r → rooted.cache x ≡ t.cache x
    rooted_other x ne = ground (arith, ne)

    t₁_w : t₁.cache w ≡ record (t.cache w) { parent = r }
    t₁_w =
        put_at dflt n w t.root (record (rooted.cache t.root) { parent = r }) rooted (sym root_is)
        ∙ ap (λ x. record (rooted.cache x) { parent = r }) root_is
        ∙ ap (λ (y : Node V). record y { parent = r }) (rooted_other w w_r)

    t₁_other : (x : ℕ) → x ≢ w → t₁.cache x ≡ rooted.cache x
    t₁_other x ne =
        put_other dflt n x t.root (record (rooted.cache t.root) { parent = r }) rooted
          (λ e. ne (e ∙ root_is))

    pub top_w : (add_root dflt n w c mid r rooted).cache w ≡ record (t.cache w) { parent = r }
    unfolding add_root
    top_w =
        put_other dflt n w c (record (t₃.cache c) { parent = r }) t₃ w_c
        ∙ put_at dflt n w w (record (t₂.cache w) { parent = r }) t₂ refl
        ∙ ap (λ (y : Node V). record y { parent = r })
            (put_other dflt n w r R' (record t₁ { root = r }) w_r ∙ t₁_w)

    pub top_c : (add_root dflt n w c mid r rooted).cache c ≡ record (t.cache c) { parent = r }
    unfolding add_root
    top_c =
        let c_w : c ≢ w = λ e. w_c (sym e) in
        put_at dflt n c c (record (t₃.cache c) { parent = r }) t₃ refl
        ∙ ap (λ (y : Node V). record y { parent = r })
            (put_other dflt n c w (record (t₂.cache w) { parent = r }) t₂ c_w
              ∙ put_other dflt n c r R' (record t₁ { root = r }) c_r
              ∙ t₁_other c c_w
              ∙ rooted_other c c_r)

    pub top_other :
        (x : ℕ) → x ≢ w → x ≢ c → x ≢ r → (add_root dflt n w c mid r rooted).cache x ≡ t.cache x
    unfolding add_root
    top_other x x_w x_c x_r =
        put_other dflt n x c (record (t₃.cache c) { parent = r }) t₃ x_c
        ∙ put_other dflt n x w (record (t₂.cache w) { parent = r }) t₂ x_w
        ∙ put_other dflt n x r R' (record t₁ { root = r }) x_r
        ∙ t₁_other x x_w
        ∙ rooted_other x x_r

    insert_first :
        (node : Node V)
        → node.vals_size ≡ 0
        → insert_value dflt mid.0 mid.1 node
          ≡ record node { vals = set node.vals 0 mid; vals_size = 1 }
    unfolding insert_value
    insert_first node e = rw e refl

    c_w : c ≢ w
    c_w e = w_c (sym e)

    r_w : r ≢ w
    r_w e = w_r (sym e)

    abbrev first_R : Node V
    first_R = record (t.cache r) { vals = set (t.cache r).vals 0 mid; vals_size = 1; id = r }

    abbrev with_childs : Node V → ℕ → ℕ → Node V
    with_childs node a b = record node {
      childs = set (set node.childs node.childs_size a) (node.childs_size + 1) b;
      childs_size = node.childs_size + 2;
    }

    rooted_r : rooted.cache r ≡ record (t.cache r) { id = r }
    rooted_r = ground arith

    R_is : R ≡ first_R
    R_is =
        ap (insert_value dflt mid.0 mid.1) (t₁_other r r_w ∙ rooted_r)
        ∙ insert_first (record (t.cache r) { id = r }) no_vals

    pub top_r : (add_root dflt n w c mid r rooted).cache r ≡ record (t.cache r) {
      vals = set (t.cache r).vals 0 mid;
      vals_size = 1;
      childs = set (set (t.cache r).childs 0 w) 1 c;
      childs_size = 2;
      id = r;
    }
    unfolding add_root
    top_r =
        put_other dflt n r c (record (t₃.cache c) { parent = r }) t₃ (λ e. c_r (sym e))
        ∙ put_other dflt n r w (record (t₂.cache w) { parent = r }) t₂ r_w
        ∙ put_at dflt n r r R' (record t₁ { root = r }) refl
        ∙ ap (λ node. with_childs node (t₁.cache w).id (t₁.cache c).id) R_is
        ∙ ap (λ i. with_childs first_R i (t₁.cache c).id) (ap (λ (y : Node V). y.id) t₁_w ∙ w_id)
        ∙ ap (λ i. with_childs first_R w i)
            (ap (λ (y : Node V). y.id) (t₁_other c c_w ∙ rooted_other c c_r) ∙ c_id)
        ∙ ap
            (λ k. record first_R {
              childs = set (set (t.cache r).childs k w) (k + 1) c;
              childs_size = k + 2;
            })
            no_childs
