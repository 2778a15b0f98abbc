-- ===== src/Infra/Programs/Upsert.antt =====
-- `upsert` against any table that keeps the laws of `Table`.
use mini_agent_go.Prelude.{
  ℕ, ◌+◌, ◌≡◌, refl, ap, ◌∙◌, ◌≢◌, Bool, true, false, ◌||◌, Option, none, some, ◌++◌, arith,
  if◌then◌else◌, Text, empty_text, some_text, ◌==◌, eq_iff, ok, err, Outcome,
}
use mini_agent_go.Prelude.Sorted.{
  mem, mem-append, mem-sorted_set, sorted_set-IsAscending, IsAscending,
}
use mini_agent_go.Core.Exceptions.{Exn, integrity}
use mini_agent_go.Domain.Models.{Json, TvProgram}
use mini_agent_go.Infra.Table.{Table}
use mini_agent_go.Infra.Programs.{
  ProgramRow, ProgramColumn, by_id, by_identity, program_cell, to_domain, from_domain, overwrite,
  find_by_identity, upsert, upsert_row, domain_of, stored,
}
use mini_agent_go.Infra.Programs.Mapping.{load_tags-dump_tag, to_domain-from_domain}

-- What becomes of a stored program: the new text, times and tags, one version more, and the sources
-- of both; its id, channel and birth stay.
pub record IsUpdated (old new q : TvProgram) : Type 0 where
  pub title : q.title ≡ new.title
  pub description : q.description ≡ new.description
  pub start : q.slot.start ≡ new.slot.start
  pub finish : q.slot.finish ≡ new.slot.finish
  pub tags : q.tags ≡ new.tags
  pub version : q.version ≡ old.version + 1
  pub sources : (s : Text) → mem s q.source_ids ≡ (mem s old.source_ids || mem s new.source_ids)
  pub ascending : IsAscending q.source_ids
  pub id : q.id ≡ old.id
  pub channel : q.channel ≡ old.channel
  pub timezone : q.slot.timezone ≡ old.slot.timezone
  pub created_at : q.created_at ≡ old.created_at
  pub identity_key : q.identity_key ≡ old.identity_key

overwrite-IsUpdated :
    (repr : Json → Text) (now : ℕ) (p : TvProgram) (r : ProgramRow)
    → IsUpdated (to_domain repr r) p (to_domain repr (overwrite now p r))
unfolding to_domain overwrite
overwrite-IsUpdated repr now p r = record {
  title = refl;
  description = refl;
  start = refl;
  finish = refl;
  tags = load_tags-dump_tag repr p.tags;
  version = refl;
  sources =
      λ s. mem-sorted_set s (r.source_ids ++ p.source_ids) ∙ mem-append s r.source_ids p.source_ids;
  ascending = sorted_set-IsAscending (r.source_ids ++ p.source_ids);
  id = refl;
  channel = refl;
  timezone = refl;
  created_at = refl;
  identity_key = refl;
}

module _ (repr : Json → Text) (table : Table ProgramRow ProgramColumn program_cell) (now : ℕ)
    (p : TvProgram) (s : table.Store) where
  open table use {
    find, size, insert, update, find-cell, insert-fresh, insert-taken, find-update, size-update,
  }

  domain_of-if :
      (b : Bool) (r : ProgramRow) (o : Option ProgramRow)
      → domain_of repr table (if b then some r else o)
        ≡ (if b then some (to_domain repr r) else domain_of repr table o)
  domain_of-if true r o = refl
  domain_of-if false r o = refl

  -- A program whose identity key is stored replaces what is there, and never fails: the row is
  -- updated in place, the number of rows stays, and other identity keys find what they found.
  pub upsert-known :
      (r : ProgramRow)
      → find by_identity p.identity_key s ≡ some r
      → let (res, s') = upsert repr table now p s in
        ((q : TvProgram) × (res ≡ ok q)
          × IsUpdated (to_domain repr r) p q
          × ((k : Text)
              → find_by_identity repr table k s'
                ≡ (if p.identity_key == k then some q else find_by_identity repr table k s)))
        × (size s' ≡ size s)
  unfolding upsert find_by_identity
  upsert-known r e =
      let same : r.identity_key ≡ p.identity_key = find-cell by_identity p.identity_key s r e in
      let r' = overwrite now p r in
      let kept : r'.identity_key ≡ r.identity_key = unfold overwrite in refl in
      rw (e, upsert_row)
        (
          (
            to_domain repr r',
            refl,
            overwrite-IsUpdated repr now p r,
            λ k.
                ap (domain_of repr table) (
                  find-update by_identity k r r' s
                    (ap (λ (i : Text). find by_identity i s) same ∙ e) kept)
                ∙ domain_of-if (r.identity_key == k) r' (find by_identity k s)
                ∙ ap
                    (λ (i : Text).
                      if i == k
                      then some (to_domain repr r')
                      else domain_of repr table (find by_identity k s))
                    same,
          ),
          size-update r r' s,
        )

  -- The table after a new program was stored, by either column.
  find-upsert_new :
      find by_identity p.identity_key s ≡ none
      → find by_id (some_text p.id) s ≡ none
      → (c : ProgramColumn) (v : Text)
      → find c v (upsert repr table now p s).1
        ≡ (if program_cell c (from_domain p) == v then some (from_domain p) else find c v s)
  unfolding upsert
  find-upsert_new new fresh c v =
      let (s', put, grown, found) = insert-fresh (from_domain p) s free in
      rw (new, upsert_row, put, stored) (found c v)
    where
      free : (d : ProgramColumn) → find d (program_cell d (from_domain p)) s ≡ none
      free by_id = unfold from_domain in fresh
      free by_identity = unfold from_domain in new

  -- A program with a new identity key, whose id is new too, is stored as it is.
  pub upsert-new :
      find by_identity p.identity_key s ≡ none
      → find by_id (some_text p.id) s ≡ none
      → let (res, s') = upsert repr table now p s in
        (res ≡ ok (record p { id = some (some_text p.id) }))
        × (size s' ≡ size s + 1)
        × ((k : Text)
            → find_by_identity repr table k s' ≡ (
                if p.identity_key == k
                then some (record p { id = some (some_text p.id) })
                else find_by_identity repr table k s))
  unfolding upsert find_by_identity from_domain
  upsert-new new fresh =
      let (s', put, grown, found) = insert-fresh (from_domain p) s free in
      let e = to_domain-from_domain repr p in
      rw (new, upsert_row, put, stored)
        (
          ap ok e,
          grown,
          λ k.
              ap (domain_of repr table) (found by_identity k)
              ∙ domain_of-if ((from_domain p).identity_key == k) (from_domain p)
                  (find by_identity k s)
              ∙ ap
                  (λ (q : TvProgram).
                    if (from_domain p).identity_key == k
                    then some q
                    else domain_of repr table (find by_identity k s))
                  e,
        )
    where
      free : (c : ProgramColumn) → find c (program_cell c (from_domain p)) s ≡ none
      free by_id = unfold from_domain in fresh
      free by_identity = unfold from_domain in new

  -- A program with a new identity key and an id that is taken is refused, and the transaction is
  -- rolled back.
  pub upsert-id_taken :
      (old : ProgramRow)
      → find by_identity p.identity_key s ≡ none
      → find by_id (some_text p.id) s ≡ some old
      → (e : Exn) × (e.cls ≡ integrity) × (upsert repr table now p s ≡ (err e, table.rolled_back s))
  unfolding upsert
  upsert-id_taken old new taken =
      let (e, refused, is_integrity) =
        insert-taken by_id (from_domain p) old s (unfold from_domain in taken) in
      (e, is_integrity, rw (new, upsert_row, refused, stored) refl)

  -- `upsert` writes in the session's transaction alone: a rollback brings back what it would have
  -- before, and a refusal is such a rollback.
  pub upsert-rolled_back :
      (table.rolled_back (upsert repr table now p s).1 ≡ table.rolled_back s)
      × ((e : Exn)
          → (upsert repr table now p s).0 ≡ err e
          → (upsert repr table now p s).1 ≡ table.rolled_back s)
  unfolding upsert upsert_row
  upsert-rolled_back = go (find by_identity p.identity_key s)
    where
      put :
          (o : Outcome Exn table.Store)
          → insert (from_domain p) s ≡ o
          → (table.rolled_back (stored repr table (from_domain p) s o).1 ≡ table.rolled_back s)
            × ((e : Exn)
                → (stored repr table (from_domain p) s o).0 ≡ err e
                → (stored repr table (from_domain p) s o).1 ≡ table.rolled_back s)
      put (ok s') h = unfold stored in (table.rolled_back-insert (from_domain p) s s' h, λ e k. cc)
      put (err e) h = unfold stored in (table.rolled_back_idem s, λ x k. refl)

      go :
          (o : Option ProgramRow)
          → (table.rolled_back (upsert_row repr table now p s o).1 ≡ table.rolled_back s)
            × ((e : Exn)
                → (upsert_row repr table now p s o).0 ≡ err e
                → (upsert_row repr table now p s o).1 ≡ table.rolled_back s)
      go none = unfold upsert_row in put (insert (from_domain p) s) refl
      go (some r) =
          unfold upsert_row in (table.rolled_back-update r (overwrite now p r) s, λ e k. cc)

-- Two programs without an id cannot both be stored: after the first, the second is refused, because
-- each takes the empty text for its primary key, and the transaction is rolled back.
pub upsert_second_without_id :
    (repr : Json → Text) (table : Table ProgramRow ProgramColumn program_cell) (now now' : ℕ)
    (p q : TvProgram) (s : table.Store)
    → p.id ≡ none
    → q.id ≡ none
    → p.identity_key ≢ q.identity_key
    → table.find by_identity p.identity_key s ≡ none
    → table.find by_identity q.identity_key s ≡ none
    → table.find by_id empty_text s ≡ none
    → let s' = (upsert repr table now p s).1 in
      (e : Exn) × (e.cls ≡ integrity)
      × (upsert repr table now' q s' ≡ (err e, table.rolled_back s'))
upsert_second_without_id repr table now now' p q s np nq ne fp fq fe =
    let s' = (upsert repr table now p s).1 in
    let pe : some_text p.id ≡ empty_text = ap some_text np in
    let qe : some_text q.id ≡ empty_text = ap some_text nq in
    let free : table.find by_id (some_text p.id) s ≡ none =
      ap (λ (i : Text). table.find by_id i s) pe ∙ fe in
    let found = find-upsert_new repr table now p s fp free in
    let still : table.find by_identity q.identity_key s' ≡ none =
      found by_identity q.identity_key
      ∙ (unfold from_domain in ground (arith, eq_iff p.identity_key q.identity_key)) in
    let taken : table.find by_id (some_text q.id) s' ≡ some (from_domain p) =
      found by_id (some_text q.id)
      ∙ (unfold from_domain in ground (arith, eq_iff (some_text p.id) (some_text q.id))) in
    upsert-id_taken repr table now' q s' (from_domain p) still taken
