-- ===== src/BTree/Move.antt =====
-- What the first half of `split_node` of include/btree.hpp leaves: the loops that copy one half of a
-- node to a new one, and the loop that gives the children that move their new parent.
pub mod Halves
pub mod Inner
pub mod Up
pub mod Join
use nkvdb.Prelude.{
  ℕ, zero, suc, ◌+◌, ◌-◌, ◌*◌, ◌≤◌, ◌<◌, ◌≡◌, ◌≢◌, refl, sym, ap, ◌∙◌, true, false, arith, ltb,
  ◌==◌, if◌then◌else◌, dec_lt, ℕ_discrete, List, get_or, length,
}
use nkvdb.BTree.{BTree, put, adopt}
use nkvdb.BTree.Nodes.{Node, val_at}

module _ {V : Type 0} (dflt : V) (n : ℕ) where
  pub put_at : (x w : ℕ) (node : Node V) (t : BTree V) → x ≡ w → (put w node t).cache x ≡ node
  put_at x w node t e = ground (arith, e)

  pub put_other :
      (x w : ℕ) (node : Node V) (t : BTree V) → x ≢ w → (put w node t).cache x ≡ t.cache x
  put_other x w node t ne = ground (arith, ne)

  adopt_stable :
      (rounds i p x : ℕ) (childs : List ℕ) (t : BTree V)
      → (t.cache x).parent ≡ p
      → (adopt dflt n rounds i p childs t).cache x ≡ t.cache x
  unfolding adopt
  adopt_stable zero i p x childs t e = refl
  adopt_stable (suc rounds) i p x childs t e =
      let ch = get_or childs i 0 in
      let t' = put ch (record (t.cache ch) { parent = p }) t in
      let is : t'.cache x ≡ t.cache x = elim (ℕ_discrete x ch) [
        | yes q ↦
            put_at x ch (record (t.cache ch) { parent = p }) t q
            ∙ ap (λ z. record (t.cache z) { parent = p }) (sym q)
            ∙ ap (λ z. record (t.cache x) { parent = z }) (sym e)
        | no q ↦ put_other x ch (record (t.cache ch) { parent = p }) t q
      ] in
      adopt_stable rounds (i + 1) p x childs t' (ap (λ (node : Node V). node.parent) is ∙ e) ∙ is

  -- The loop gives the parent to the children in its range, and changes nothing else.
  pub adopt_kept :
      (rounds i p x : ℕ) (childs : List ℕ) (t : BTree V)
      → ((j : ℕ) → j < rounds → get_or childs (i + j) 0 ≢ x)
      → (adopt dflt n rounds i p childs t).cache x ≡ t.cache x
  unfolding adopt
  adopt_kept zero i p x childs t none_is = refl
  adopt_kept (suc rounds) i p x childs t none_is =
      let ch = get_or childs i 0 in
      let t' = put ch (record (t.cache ch) { parent = p }) t in
      let e : i + 0 ≡ i = omega arith in
      let head : x ≢ ch = λ q. none_is 0 (omega arith) (ap (λ z. get_or childs z 0) e ∙ sym q) in
      adopt_kept rounds (i + 1) p x childs t' (λ j l q.
        let e' : i + suc j ≡ i + 1 + j = omega arith in
        none_is (suc j) (omega arith) (ap (λ z. get_or childs z 0) e' ∙ q))
      ∙ put_other x ch (record (t.cache ch) { parent = p }) t head

  pub adopt_moved :
      (rounds i p x j : ℕ) (childs : List ℕ) (t : BTree V)
      → j < rounds
      → get_or childs (i + j) 0 ≡ x
      → (adopt dflt n rounds i p childs t).cache x ≡ record (t.cache x) { parent = p }
  unfolding adopt
  adopt_moved zero i p x j childs t l is = absurd (omega arith)
  adopt_moved (suc rounds) i p x j childs t l is =
      let ch = get_or childs i 0 in
      let t' = put ch (record (t.cache ch) { parent = p }) t in
      elim (ℕ_discrete x ch) [
        | yes q ↦
            let now : t'.cache x ≡ record (t.cache x) { parent = p } =
              put_at x ch (record (t.cache ch) { parent = p }) t q
              ∙ ap (λ z. record (t.cache z) { parent = p }) (sym q) in
            adopt_stable rounds (i + 1) p x childs t' (ap (λ (node : Node V). node.parent) now)
            ∙ now
        | no q ↦
            let j_pos : j ≢ 0 = λ z. q (
              sym is
              ∙ ap (λ k. get_or childs (i + k) 0) z
              ∙ ap (λ k. get_or childs k 0) (omega arith)) in
            let e : i + 1 + (j - 1) ≡ i + j = omega arith in
            adopt_moved rounds (i + 1) p x (j - 1) childs t' (omega arith)
              (ap (λ k. get_or childs k 0) e ∙ is)
            ∙ ap (λ (node : Node V). record node { parent = p })
                (put_other x ch (record (t.cache ch) { parent = p }) t q)
      ]

  pub adopt_is :
      (rounds i p x : ℕ) (childs : List ℕ) (t : BTree V)
      → (adopt dflt n rounds i p childs t).cache x
        ≡ record (t.cache x) { parent = ((adopt dflt n rounds i p childs t).cache x).parent }
  unfolding adopt
  adopt_is zero i p x childs t = refl
  adopt_is (suc rounds) i p x childs t =
      let ch = get_or childs i 0 in
      let t' = put ch (record (t.cache ch) { parent = p }) t in
      let q = ((adopt dflt n rounds (i + 1) p childs t').cache x).parent in
      let is : record (t'.cache x) { parent = q } ≡ record (t.cache x) { parent = q } =
        elim (ℕ_discrete x ch) [
          | yes e ↦
              ap (λ (node : Node V). record node { parent = q })
                (put_at x ch (record (t.cache ch) { parent = p }) t e)
              ∙ ap (λ z. record (t.cache z) { parent = q }) (sym e)
          | no e ↦
              ap (λ (node : Node V). record node { parent = q })
                (put_other x ch (record (t.cache ch) { parent = p }) t e)
        ] in
      adopt_is rounds (i + 1) p x childs t' ∙ is

  pub adopt_root :
      (rounds i p : ℕ) (childs : List ℕ) (t : BTree V)
      → (adopt dflt n rounds i p childs t).root ≡ t.root
  unfolding adopt
  adopt_root zero i p childs t = refl
  adopt_root (suc rounds) i p childs t =
      adopt_root rounds (i + 1) p childs
        (put (get_or childs i 0) (record (t.cache (get_or childs i 0)) { parent = p }) t)

  pub adopt_pos :
      (rounds i p : ℕ) (childs : List ℕ) (t : BTree V)
      → ((adopt dflt n rounds i p childs t).cache_pos ≡ t.cache_pos)
        × ((adopt dflt n rounds i p childs t).cache_size ≡ t.cache_size)
  unfolding adopt
  adopt_pos zero i p childs t = (refl, refl)
  adopt_pos (suc rounds) i p childs t =
      adopt_pos rounds (i + 1) p childs
        (put (get_or childs i 0) (record (t.cache (get_or childs i 0)) { parent = p }) t)
