-- ===== src/ControlStore/Pending/Rows.antt =====
-- The row of an id under the statements on `pending_operations`.
use jolt.Prelude.{
  String, Bool, true, false, not, ◌&&◌, ◌||◌, ◌≡◌, refl, Option, none, some, List, [], ◌∷◌, ◌++◌,
  ◌==◌, if◌then◌else◌, any, arith, eq_iff, Bool-cases, inl, inr, ap, sym, ◌∙◌,
}
use jolt.ControlStore.Entities.{PendingOperation}
use jolt.ControlStore.Sql.{update_where, delete_where, select_where}
use jolt.ControlStore.Pending.{has_id}

abbrev pub row_of : String → List PendingOperation → Option PendingOperation
row_of id ps = select_where (has_id id) ps

-- no two rows have one id
abbrev pub distinct : List PendingOperation → Bool
distinct [] = true
distinct (p ∷ ps) = not (any (has_id p.id) ps) && distinct ps

abbrev pub changed_if :
    (PendingOperation → Bool)
    → (PendingOperation → PendingOperation)
    → Option PendingOperation
    → Option PendingOperation
changed_if p f none = none
changed_if p f (some r) = some (if p r then f r else r)

abbrev pub kept_unless :
    (PendingOperation → Bool) → Option PendingOperation → Option PendingOperation
kept_unless p none = none
kept_unless p (some r) = if p r then none else some r

module _ (p : PendingOperation → Bool) (f : PendingOperation → PendingOperation)
    (same : (r : PendingOperation) → (f r).id ≡ r.id) where
  pub row_of-update :
      (id : String) (ps : List PendingOperation)
      → row_of id (update_where p f ps) ≡ changed_if p f (row_of id ps)
  unfolding update_where select_where has_id
  row_of-update id [] = refl
  row_of-update id (r ∷ ps) = ground (arith, row_of-update id ps, same r)

  any-update :
      (id : String) (ps : List PendingOperation)
      → any (has_id id) (update_where p f ps) ≡ any (has_id id) ps
  unfolding update_where has_id
  any-update id [] = refl
  any-update id (r ∷ ps) = ground (arith, any-update id ps, same r)

  pub distinct-update : (ps : List PendingOperation) → distinct (update_where p f ps) ≡ distinct ps
  unfolding update_where
  distinct-update [] = refl
  distinct-update (r ∷ ps) =
      ground (arith, distinct-update ps, any-update r.id ps, any-update (f r).id ps, same r)

pub row_of_absent :
    (id : String) (ps : List PendingOperation) → any (has_id id) ps ≡ false → row_of id ps ≡ none
unfolding select_where
row_of_absent id [] h = refl
row_of_absent id (r ∷ ps) h = ground (arith, row_of_absent id ps)

module _ (p : PendingOperation → Bool) where
  any-delete :
      (id : String) (ps : List PendingOperation)
      → any (has_id id) ps ≡ false
      → any (has_id id) (delete_where p ps) ≡ false
  unfolding delete_where
  any-delete id [] h = refl
  any-delete id (r ∷ ps) h = ground (arith, any-delete id ps)

  pub distinct-delete :
      (ps : List PendingOperation) → distinct ps ≡ true → distinct (delete_where p ps) ≡ true
  unfolding delete_where
  distinct-delete [] h = refl
  distinct-delete (r ∷ ps) h = ground (arith, distinct-delete ps, any-delete r.id ps)

  pub row_of-delete :
      (id : String) (ps : List PendingOperation)
      → distinct ps ≡ true
      → row_of id (delete_where p ps) ≡ kept_unless p (row_of id ps)
  unfolding delete_where select_where
  row_of-delete id [] h = refl
  row_of-delete id (r ∷ ps) h = elim (Bool-cases (has_id id r)) [
    | inl e ↦
        let same : r.id ≡ id = (eq_iff r.id id).0 (unfold has_id in e) in
        let absent : any (has_id id) ps ≡ false =
          ap (λ k. any (has_id k) ps) (sym same) ∙ ground arith in
        ground (arith, row_of_absent id (delete_where p ps), any-delete id ps)
    | inr e ↦ ground (arith, row_of-delete id ps)
  ]

pub row_of-append :
    (id : String) (q : PendingOperation) (ps : List PendingOperation)
    → any (has_id q.id) ps ≡ false
    → row_of id (ps ++ (q ∷ [])) ≡ (if q.id == id then some q else row_of id ps)
unfolding select_where has_id
row_of-append id q [] h = refl
row_of-append id q (r ∷ ps) h = elim (Bool-cases (r.id == id)) [
  | inl e ↦
      let same : r.id ≡ id = (eq_iff r.id id).0 e in
      let apart : (q.id == id) ≡ false = ground (arith, eq_iff q.id id, eq_iff r.id q.id) in
      ground arith
  | inr e ↦ ground (arith, row_of-append id q ps)
]

any-append_one :
    (id : String) (q : PendingOperation) (ps : List PendingOperation)
    → any (has_id id) (ps ++ (q ∷ [])) ≡ (any (has_id id) ps || has_id id q)
any-append_one id q [] = ground arith
any-append_one id q (r ∷ ps) = ground (arith, any-append_one id q ps)

pub distinct-append :
    (q : PendingOperation) (ps : List PendingOperation)
    → any (has_id q.id) ps ≡ false
    → distinct ps ≡ true
    → distinct (ps ++ (q ∷ [])) ≡ true
unfolding has_id
distinct-append q [] h d = refl
distinct-append q (r ∷ ps) h d =
    ground
      (arith, distinct-append q ps, any-append_one r.id q ps, eq_iff q.id r.id, eq_iff r.id q.id)
