-- ===== src/Writer/Rounds.antt =====
-- One round of the writer's loop of libnkvdb/storage.cpp.
use nkvdb.Prelude.{
  ℕ, ◌+◌, ◌≤◌, ◌<◌, ◌≡◌, refl, sym, ap, ◌∙◌, ◌⊎◌, inl, inr, List, [], ◌∷◌, ◌++◌, not, none, some,
  arith, length, take, All, All-append, ◌==◌, if◌then◌else◌, Bool-cases,
}
use mathlib.Core.List.{append-nil}
use mathlib.Core.Path.{subst}
use nkvdb.Prelude.Result.{Result, ok, >>=-eq-ok, ok-injective, ◌>>=◌}
use nkvdb.Meas.{Meas, AppendResult}
use nkvdb.Page.{Page, meas_bytes}
use nkvdb.Page.Append.{append_array}
use nkvdb.Page.Layout.Fill.{gap, HasSize}
use nkvdb.Page.Files.{create}
use nkvdb.Manager.{Manager, PageName, put_file, create_new_page}
use nkvdb.Manager.Switch.{close-KeepsContent, create_new_page-closes}
use nkvdb.Writer.{Limits, write_round}
use nkvdb.Writer.View.{Added, append_array-Added, KeepsContent-Shows, create-IsNew}
use nkvdb.Writer.Holds.{
  Filed, Holds, contents, contents_snoc, contents-append, in_use-other, put_file-same, Filed-put,
}

-- What one round of the loop leaves, with `w` of `begin` written.
pub record Round (s : ℕ) (m' : Manager) (closed : List (PageName × List Meas))
    (ms begin : List Meas) (w : ℕ) (roomy : Type 0) : Type 0 where
  pub closed' : List (PageName × List Meas)
  pub ms' : List Meas
  pub holds : Holds s m' closed' ms'
  pub kept : contents closed' ms' ≡ contents closed ms ++ take w begin
  pub most : w ≤ length begin
  pub all_or_room : (w ≡ length begin) ⊎ (meas_bytes + s ≤ gap holds.page)
  pub some_written : roomy → 0 < length begin → 0 < w

module _ (s : ℕ) (lim : Limits) (begin : List Meas) (small : s ≤ 8) (sizes : All (HasSize s) begin)
    (m : Manager) (closed : List (PageName × List Meas)) (ms : List Meas)
    (h : Holds s m closed ms) where
  abbrev after : Page → Manager
  after q = record m { cur_page = some (h.name, q) }

  -- The page is closed and a new one made.
  switched :
      (q : Page) (w : ℕ) (m' : Manager)
      → Added s h.page q ms begin w
      → create_new_page lim.names lim.tree lim.now (after q) ≡ ok m'
      → Round s m' closed ms begin w (meas_bytes + s ≤ gap h.page)
  switched q w m' added e =
      let (name, p, cur, shut, files, free, _, size) =
        create_new_page-closes lim.names lim.tree lim.now (after q) m' h.name q refl e in
      let new = create-IsNew s m.default_page_size q.window h.sized in
      let free' : put_file h.name p m.files name ≡ none = ap (λ f. f name) (sym files) ∙ free in
      let whole = ms ++ take w begin in
      let shown = KeepsContent-Shows q p whole (close-KeepsContent lim.tree q p shut) added.shows in
      let same = put_file-same h.name name p m.files free' in
      record {
        closed' = closed ++ (h.name, whole) ∷ [];
        ms' = [];
        holds = record {
          name = name;
          page = record (create m.default_page_size none) { window = q.window };
          current = cur;
          shows = new.shows;
          sound = new.sound;
          fits = new.fits;
          archive = rw files (
              All-append (Filed (put_file h.name p m.files) name) closed ((h.name, whole) ∷ [])
                (Filed-put h.name name p m.files free' closed h.archive)
                (((p, same, shown), in_use-other h.name name p m.files free' h.name p same), tt));
          sized = rw size h.sized;
        };
        kept =
            contents_snoc closed h.name whole []
            ∙ append-nil (contents closed whole)
            ∙ contents-append closed ms (take w begin);
        most = added.most;
        all_or_room = inr new.room;
        some_written = added.some_written;
      }

  stayed :
      (q : Page) (w : ℕ) (m' : Manager)
      → Added s h.page q ms begin w
      → w ≡ length begin
      → after q ≡ m'
      → Round s m' closed ms begin w (meas_bytes + s ≤ gap h.page)
  stayed q w m' added full e =
      subst (λ x. Round s x closed ms begin w (meas_bytes + s ≤ gap h.page)) e
        (record {
          closed' = closed;
          ms' = ms ++ take w begin;
          holds = record {
            name = h.name;
            page = q;
            current = refl;
            shows = added.shows;
            sound = added.sound;
            fits = added.fits;
            archive = h.archive;
            sized = h.sized;
          };
          kept = contents-append closed ms (take w begin);
          most = added.most;
          all_or_room = inl full;
          some_written = added.some_written;
        })

  pub write_round-Round :
      (m' : Manager) (w : ℕ)
      → write_round lim begin m ≡ ok (m', w)
      → Round s m' closed ms begin w (meas_bytes + s ≤ gap h.page)
  unfolding write_round
  write_round-Round m' w e =
      let switch : Page × AppendResult → Result Manager = λ r.
        if not (r.1.writed == length begin)
        then create_new_page lim.names lim.tree lim.now (after r.0)
        else ok (after r.0) in
      let next : Page × AppendResult → Result (Manager × ℕ) =
        λ r. switch r >>= λ m₂. ok (m₂, r.1.writed) in
      let ((q, r), e₁, e₂) =
        >>=-eq-ok (append_array lim.tree begin h.page) next {y = (m', w)}
          (ground (arith, e, h.current)) in
      let (m₂, e₃, e₄) = >>=-eq-ok (switch (q, r)) (λ m₂. ok (m₂, r.writed)) {y = (m', w)} e₂ in
      let pair : ◌≡◌ {A = Manager × ℕ} (m₂, r.writed) (m', w) =
        ok-injective (m₂, r.writed) (m', w) e₄ in
      let one : m₂ ≡ m' = ap (λ (x : Manager × ℕ). x.0) pair in
      let two : r.writed ≡ w = ap (λ (x : Manager × ℕ). x.1) pair in
      let added : Added s h.page q ms begin w =
        subst (Added s h.page q ms begin) two (
          append_array-Added s lim.tree begin h.page q r ms e₁ small sizes h.sound h.fits
            h.shows) in
      elim (Bool-cases (r.writed == length begin)) [
        | inl t ↦
            let e₅ : after q ≡ m₂ = ok-injective (after q) m₂ (ground (arith, e₃, t)) in
            stayed q w m' added (ground (arith, t, two)) (e₅ ∙ one)
        | inr t ↦ switched q w m' added (ground (arith, e₃, t, one))
      ]
