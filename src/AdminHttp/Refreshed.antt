-- ===== src/AdminHttp/Refreshed.antt =====
-- refreshVerifier on a bucket that answers truly: the verifier takes over each stored record.
use geotagger.Prelude.{
  ◌≡◌, refl, ap, subst, inl, inr, List, [], ◌∷◌, Option, some, ok, All, Elem, Bool-cases,
}
use geotagger.Text.Bytes.{Str, str_eq, str_eq_iff, str_eq_refl}
use geotagger.Auth.Managed.{find_key}
use geotagger.KeyStore.Records.{KeyRecord, Entry}
use geotagger.KeyStore.Operations.{KeyValue}
use geotagger.KeyStore.Listing.{list_records}
use geotagger.KeyStore.Issued.{managed_key}
use geotagger.KeyStore.Listed.{IsBucket, Stored, Lists, no_entry, has_record, list_records_lem}
use geotagger.AdminHttp.Handlers as Handlers

module _ {S : Type 0} (kv : KeyValue S) (view : S → Str → Option Entry)
    (unmarshal : Str → Option KeyRecord) where
  Stored-unique :
      (s : S) (r x : KeyRecord)
      → Stored kv view unmarshal s r
      → Stored kv view unmarshal s x
      → x.id ≡ r.id
      → x ≡ r
  Stored-unique s r x a b same = cc (a.shown, a.decoded, b.shown, b.decoded, ap (view s) same)

  find_key-Stored :
      (s : S) (r : KeyRecord) (records : List KeyRecord)
      → Stored kv view unmarshal s r
      → All (Stored kv view unmarshal s) records
      → Elem r records
      → find_key r.id (Handlers.managed_keys records) ≡ some (managed_key r)
  unfolding find_key Handlers.managed_keys managed_key
  find_key-Stored s r [] a all e = absurd e
  find_key-Stored s r (x ∷ records) a (b, all) (inl same) = rw (← same) (rw (str_eq_refl r.id) refl)
  find_key-Stored s r (x ∷ records) a (b, all) (inr e) = elim (Bool-cases (str_eq x.id r.id)) [
    | inl hit ↦
        rw hit
          (ap (λ y. some (managed_key y)) (Stored-unique s r x a b ((str_eq_iff x.id r.id).0 hit)))
    | inr miss ↦ rw miss (find_key-Stored s r records a all e)
  ]

  module _ (bucket : IsBucket kv view) where
    pub list_records-find_key :
        (s t : S) (r : KeyRecord) (records : List KeyRecord)
        → Stored kv view unmarshal s r
        → list_records kv unmarshal s ≡ (t, ok records)
        → find_key r.id (Handlers.managed_keys records) ≡ some (managed_key r)
    list_records-find_key s t r records a h =
        let (back, (sorted, (all, lists))) =
          list_records_lem kv view unmarshal bucket s t records h in
        find_key-Stored s r records a all (go (view s r.id) a.shown (lists r.id))
      where
        go :
            (e : Option Entry)
            → e ≡ some a.entry
            → Lists kv view unmarshal records e
            → Elem r records
        go e shown no_entry = cc
        go e shown (has_record x decoded elem) =
            subst (λ y. Elem y records) (cc (shown, decoded, a.decoded)) elem
