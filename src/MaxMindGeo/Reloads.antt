-- ===== src/MaxMindGeo/Reloads.antt =====
-- reload either exchanges the readers of the changed databases or leaves all as it was.
use geotagger.Prelude.{◌∙◌, Bool, Option, none, some, Result, ok, err, arith}
use geotagger.Text.Bytes.{Str}
use geotagger.MaxMindGeo.Files.{
  FileStamp, Reader, Outside, OpenError, MaxMindError, open_city, open_asn, World, Action, follow,
  wrap, close_reader,
}
use geotagger.MaxMindGeo.Reload.{open_changed, or_close, exchange, reload}
use geotagger.MaxMindGeo.Coherent.{Reads, IsFresh, Opening, unopenable, open_changed-Opening}
use geotagger.MaxMindGeo.Steady.{IsTidy, Reloaded, undone}
use geotagger.MaxMindGeo.Exchanges.{Gained, Opening-Gained, IsTidy-IsFresh, exchange-Reloaded}

module _ (o : Outside) where
  pub reload-Reloaded :
      (city asn : Bool) (c a : FileStamp) (w : World)
      → IsTidy w
      → Reloaded city asn c a w (reload o city asn c a w)
  unfolding reload or_close close_reader
  reload-Reloaded city asn c a w t =
      first (open_changed o city c w) (open_changed-Opening o city c w fresh)
        (λ u. open_changed-Opening o asn a u)
    where
      fresh : IsFresh w
      fresh = IsTidy-IsFresh w t

      swap : Option (Reader × Str) → Option (Reader × Str) → Action MaxMindError (Unit {0})
      swap nc na = exchange city asn c a nc na

      back :
          (nc : Option (Reader × Str)) (u v : World) (e : OpenError)
          → Gained city c w u nc
          → Reads u v
          → Reloaded city asn c a w (
              (λ (p : Result MaxMindError (Option (Reader × Str)) × World).
                  follow p.0 (swap nc) p.1)
                (or_close nc (err e) v))
      back none u v e g reads = undone v (open_asn e) (record {
        maxmind = reads.maxmind ∙ g.maxmind;
        is_open = λ k. reads.is_open k ∙ g.opens k;
        calls = omega (arith, g.calls, reads.calls);
      })
      back (some (r, n)) u v e g reads = undone _ (open_asn e) (record {
        maxmind = reads.maxmind ∙ g.maxmind;
        is_open = λ k. ground (arith, reads.is_open k, g.opens k, g.late k, fresh k);
        calls = omega (arith, g.calls, reads.calls);
      })

      second :
          (nc : Option (Reader × Str)) (u : World)
          → Gained city c w u nc
          → (r : Result OpenError (Option (Reader × Str)) × World) → Opening asn a u r
          → Reloaded city asn c a w (
              (λ (p : Result MaxMindError (Option (Reader × Str)) × World).
                  follow p.0 (swap nc) p.1)
                (or_close nc r.0 r.1))
      second nc u g (ok na, v) opening =
          exchange-Reloaded city asn c a w u v t nc na g (Opening-Gained asn a u v na opening)
      second nc u g (err e, v) (unopenable v' e' reads) = back nc u v e g reads

      late : (nc : Option (Reader × Str)) (u : World) → Gained city c w u nc → IsFresh u
      late nc u g k below = ground (arith, g.opens k, g.late k, fresh k, g.calls, below)

      first :
          (r : Result OpenError (Option (Reader × Str)) × World)
          → Opening city c w r
          → ((u : World) → IsFresh u → Opening asn a u (open_changed o asn a u))
          → Reloaded city asn c a w (
              (λ (p : Result MaxMindError (Option (Reader × Str)) × World).
                  follow p.0
                    (λ nc u.
                      (λ (q : Result MaxMindError (Option (Reader × Str)) × World).
                          follow q.0 (swap nc) q.1)
                        (let r = open_changed o asn a u in or_close nc r.0 r.1))
                    p.1)
                (wrap open_city r.0, r.1))
      first (ok nc, u) opening next =
          let g = Opening-Gained city c w u nc opening in
          second nc u g (open_changed o asn a u) (next u (late nc u g))
      first (err e, u) (unopenable u' e' reads) next = undone u (open_city e) reads
