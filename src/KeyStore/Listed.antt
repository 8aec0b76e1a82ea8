-- ===== src/KeyStore/Listed.antt =====
-- What List returns, on a bucket that answers truly.
use geotagger.Prelude.{
  ◌≡◌, refl, sym, ap, ◌∙◌, subst, ◌⊎◌, inl, inr, List, [], ◌∷◌, ◌++◌, Option, none, some, Result,
  ok, err, All, All-append, Elem, All-Elem, IsSorted, sort, sort-All, sort-Elem, sort-IsSorted, ℕ,
}
use geotagger.Text.Bytes.{Str}
use geotagger.Text.Order.{str_lt_asym, str_lt_trans}
use geotagger.KeyStore.Records.{KeyRecord, Entry, StoreError, decode_entry}
use geotagger.KeyStore.Operations.{
  KvError, key_not_found, key_deleted, key_exists, key_revision_mismatch, no_keys_found,
  kv_unavailable, KeyValue, chain,
}
use geotagger.KeyStore.Inversion.{check_record_sound}
use geotagger.KeyStore.Listing.{by_id, listed, list_keys, sorted, list_from, list_records}

-- The calls answer truly of the bucket that `view` shows, and no other process writes between them.
pub record IsBucket {S : Type 0} (kv : KeyValue S) (view : S → Str → Option Entry) : Type 0 where
  pub found :
      (id : Str) (s t : S) (e : Entry) → kv.get id s ≡ (t, ok e) → (t ≡ s) × (view s id ≡ some e)
  pub absent :
      (id : Str) (s t : S) → kv.get id s ≡ (t, err key_not_found) → (t ≡ s) × (view s id ≡ none)
  pub deleted :
      (id : Str) (s t : S) → kv.get id s ≡ (t, err key_deleted) → (t ≡ s) × (view s id ≡ none)
  pub keyed : (s : S) (id : Str) (e : Entry) → view s id ≡ some e → e.key ≡ id
  pub all_keys :
      (s t : S) (keys : List Str)
      → kv.keys s ≡ (t, ok keys)
      → (t ≡ s) × ((id : Str) → (view s id ≡ none) ⊎ Elem id keys)
  pub no_keys :
      (s t : S) → kv.keys s ≡ (t, err no_keys_found) → (t ≡ s) × ((id : Str) → view s id ≡ none)
  pub created :
      (id value : Str) (s t : S) (n : ℕ)
      → kv.create id value s ≡ (t, ok n)
      → view t id ≡ some (record { key = id; value = value; revision = n })
  pub updated :
      (id value : Str) (revision : ℕ) (s t : S) (n : ℕ)
      → kv.update id value revision s ≡ (t, ok n)
      → view t id ≡ some (record { key = id; value = value; revision = n })

module _ {S : Type 0} (kv : KeyValue S) (view : S → Str → Option Entry)
    (unmarshal : Str → Option KeyRecord) where
  -- The record comes from the entry under its id.
  pub record Stored (s : S) (r : KeyRecord) : Type 0 where
    pub entry : Entry
    pub shown : view s r.id ≡ some entry
    pub decoded : decode_entry unmarshal entry ≡ ok r

  -- The list has the record of an entry.
  pub data Lists (records : List KeyRecord) : Option Entry → Type 0 where
    no_entry : Lists records none
    has_record :
        {e : Entry} (r : KeyRecord)
        → decode_entry unmarshal e ≡ ok r
        → Elem r records
        → Lists records (some e)

  -- What the loop has added to the records it began with.
  record Looped (s t : S) (keys : List Str) (before records : List KeyRecord) : Type 0 where
    same : t ≡ s
    grows : (r : KeyRecord) → Elem r before → Elem r records
    stored : All (Stored s) before → All (Stored s) records
    lists : All (λ key. Lists records (view s key)) keys

  module _ (bucket : IsBucket kv view) where
    Elem-append : (r : KeyRecord) (xs ys : List KeyRecord) → Elem r xs → Elem r (xs ++ ys)
    Elem-append r [] ys e = absurd e
    Elem-append r (x ∷ xs) ys (inl same) = inl same
    Elem-append r (x ∷ xs) ys (inr e) = inr (Elem-append r xs ys e)

    Elem-last : (r : KeyRecord) (xs : List KeyRecord) → Elem r (xs ++ r ∷ [])
    Elem-last r [] = inl refl
    Elem-last r (x ∷ xs) = inr (Elem-last r xs)

    list_keys-Looped :
        (keys : List Str) (before records : List KeyRecord) (s t : S)
        → list_keys kv unmarshal keys before s ≡ (t, ok records)
        → Looped s t keys before records
    unfolding list_keys listed
    list_keys-Looped [] before records s t h =
        let same : before ≡ records = cc in
        record {
          same = sym (ap (λ p. p.0) h);
          grows = λ r e. subst (Elem r) same e;
          stored = λ a. subst (All (Stored s)) same a;
          lists = tt;
        }
    list_keys-Looped (key ∷ keys) before records s t h =
        go (kv.get key s) refl h (λ now b. list_keys-Looped keys b records now t)
      where
        Rest : Type 0
        Rest =
            (now : S) (b : List KeyRecord)
            → list_keys kv unmarshal keys b now ≡ (t, ok records)
            → Looped now t keys b records

        gone :
            (now : S)
            → (now ≡ s) × (view s key ≡ none)
            → Looped now t keys (before ++ []) records
            → Looped s t (key ∷ keys) before records
        gone now (back, nothing) rest =
            let l = subst (λ x. Looped x t keys (before ++ []) records) back rest in
            record {
              same = l.same;
              grows = λ r e. l.grows r (Elem-append r before [] e);
              stored = λ a. l.stored (All-append (Stored s) before [] a tt);
              lists = (subst (Lists records) (sym nothing) no_entry, l.lists);
            }

        added :
            (now : S) (e : Entry) (d : Result StoreError KeyRecord)
            → decode_entry unmarshal e ≡ d
            → (now ≡ s) × (view s key ≡ some e)
            → chain
                (elim d [ ok r ↦ ok (r ∷ []) | err x ↦ err x ])
                (λ found. list_keys kv unmarshal keys (before ++ found))
                now
              ≡ (t, ok records)
            → Rest
            → Looped s t (key ∷ keys) before records
        added now e (err x) decoded true_ h' rest = cc
        added now e (ok r) decoded (back, shown) h' rest =
            let l =
              subst (λ x. Looped x t keys (before ++ r ∷ []) records) back
                (rest now (before ++ r ∷ []) h') in
            let id : r.id ≡ key =
              (check_record_sound unmarshal e (unmarshal e.value) r
                (unfold decode_entry in decoded)).1
              ∙ bucket.keyed s key e shown in
            record {
              same = l.same;
              grows = λ z elem. l.grows z (Elem-append z before (r ∷ []) elem);
              stored = λ a. l.stored (
                  All-append (Stored s) before (r ∷ []) a
                    (record { entry = e; shown = ap (view s) id ∙ shown; decoded = decoded }, tt));
              lists = (
                subst (Lists records) (sym shown)
                    (has_record r decoded (l.grows r (Elem-last r before))),
                l.lists,
              );
            }

        go :
            (r : S × Result KvError Entry)
            → kv.get key s ≡ r
            → chain
                (listed kv unmarshal key r.1)
                (λ found. list_keys kv unmarshal keys (before ++ found))
                r.0
              ≡ (t, ok records)
            → Rest
            → Looped s t (key ∷ keys) before records
        go (now, ok e) asked h' rest =
            added now e (decode_entry unmarshal e) refl (bucket.found key s now e asked) h' rest
        go (now, err key_not_found) asked h' rest =
            gone now (bucket.absent key s now asked) (rest now (before ++ []) h')
        go (now, err key_deleted) asked h' rest =
            gone now (bucket.deleted key s now asked) (rest now (before ++ []) h')
        go (now, err key_exists) asked h' rest = cc
        go (now, err key_revision_mismatch) asked h' rest = cc
        go (now, err no_keys_found) asked h' rest = cc
        go (now, err kv_unavailable) asked h' rest = cc

    resorted :
        (rs records : List KeyRecord)
        → sort by_id rs ≡ records
        → (o : Option Entry) → Lists rs o
        → Lists records o
    resorted rs records same o no_entry = no_entry
    resorted rs records same o (has_record r decoded e) =
        has_record r decoded (subst (Elem r) same (sort-Elem by_id r rs e))

    -- List, where it succeeds on a bucket that answers truly and that no other process writes
    -- meanwhile: the records are ordered by id; each comes from the entry under its id; and for
    -- every id, the list has the record of the entry under it, if there is one.
    pub list_records_lem :
        (s t : S) (records : List KeyRecord)
        → list_records kv unmarshal s ≡ (t, ok records)
        → (t ≡ s)
          × (IsSorted by_id records
              × (All (Stored s) records × ((id : Str) → Lists records (view s id))))
    unfolding list_records list_from
    list_records_lem s t records h = keyed (kv.keys s) refl h
      where
        Claim : Type 0
        Claim =
            (t ≡ s)
            × (IsSorted by_id records
                × (All (Stored s) records × ((id : Str) → Lists records (view s id))))

        looped :
            (now : S) (keys : List Str) (r : S × Result StoreError (List KeyRecord))
            → list_keys kv unmarshal keys [] now ≡ r
            → (now ≡ s) × ((id : Str) → (view s id ≡ none) ⊎ Elem id keys)
            → sorted kv unmarshal r ≡ (t, ok records)
            → Claim
        looped now keys (u, err e) ran all h' = unfold sorted in cc
        looped now keys (u, ok rs) ran (back, all) h' =
            let l =
              subst (λ x. Looped x u keys [] rs) back (list_keys-Looped keys [] rs now u ran) in
            unfold sorted in finish u rs (ap (λ p. p.0) h') (sort_eq u rs h') l all
          where
            sort_eq :
                (u : S) (rs : List KeyRecord)
                → sorted kv unmarshal (u, ok rs) ≡ (t, ok records)
                → sort by_id rs ≡ records
            sort_eq u rs e = cc

            finish :
                (u : S) (rs : List KeyRecord)
                → u ≡ t
                → sort by_id rs ≡ records
                → Looped s u keys [] rs
                → ((id : Str) → (view s id ≡ none) ⊎ Elem id keys)
                → Claim
            finish u rs there_ same l all = (
              sym there_ ∙ l.same,
              (
                subst (IsSorted by_id) same (
                    sort-IsSorted by_id (λ a b. str_lt_asym a.id b.id)
                      (λ a b c. str_lt_trans a.id b.id c.id) rs),
                (
                  subst (All (Stored s)) same (sort-All by_id (Stored s) rs (l.stored tt)),
                  λ id. elim (all id) [
                    | inl nothing ↦ subst (Lists records) (sym nothing) no_entry
                    | inr elem ↦
                        resorted rs records same (view s id)
                          (All-Elem (λ key. Lists rs (view s key)) id keys elem l.lists)
                  ],
                ),
              ),
            )

        keyed :
            (r : S × Result KvError (List Str))
            → kv.keys s ≡ r
            → list_from kv unmarshal r ≡ (t, ok records)
            → Claim
        keyed (now, ok keys) asked h' =
            looped now keys (list_keys kv unmarshal keys [] now) refl
              (bucket.all_keys s now keys asked) h'
        keyed (now, err no_keys_found) asked h' =
            let (back, nothing) = bucket.no_keys s now asked in
            let none_listed : [] ≡ records = unfold list_from in cc in
            (
              sym (ap (λ p. p.0) h') ∙ back,
              (
                subst (IsSorted by_id) none_listed tt,
                (
                  subst (All (Stored s)) none_listed tt,
                  λ id. subst (Lists records) (sym (nothing id)) no_entry,
                ),
              ),
            )
        keyed (now, err key_not_found) asked h' = cc
        keyed (now, err key_deleted) asked h' = cc
        keyed (now, err key_exists) asked h' = cc
        keyed (now, err key_revision_mismatch) asked h' = cc
        keyed (now, err kv_unavailable) asked h' = cc
