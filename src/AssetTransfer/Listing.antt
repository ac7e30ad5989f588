-- ===== src/AssetTransfer/Listing.antt =====
-- `get_all_assets` against a peer that serves the range of all keys.
use fabric_chaincode_rs.Prelude.{ℕ, ◌≡◌, refl, List, [], ◌∷◌, Text, Bytes, inl, inr}
use fabric_chaincode_rs.Error.{Result, ok, err, result_cases}
use fabric_chaincode_rs.Protos.Messages.{Kv}
use fabric_chaincode_rs.Session.{Env, Session, done}
use fabric_chaincode_rs.Session.Requests.{IsIdle, Stays}
use fabric_chaincode_rs.Stub.{ChaincodeStub}
use fabric_chaincode_rs.Stub.Calls.Scan.{Scans, range-Scans}
use fabric_chaincode_rs.AssetTransfer.{Asset, QueryResult, get_all_assets, assets_of, kept}

-- The records that are assets, in order, each with its key; the others are left out.
pub data IsListing (from_json : Bytes → Result Asset Text)
    : List Kv → List QueryResult → Type 0 where
  end : IsListing from_json [] []
  listed :
      {kv : Kv} {a : Asset} {kvs : List Kv} {results : List QueryResult}
      → from_json kv.value ≡ ok a
      → IsListing from_json kvs results
      → IsListing from_json (kv ∷ kvs) (record { key = kv.key; record_value = a } ∷ results)
  left_out :
      {kv : Kv} {e : Text} {kvs : List Kv} {results : List QueryResult}
      → from_json kv.value ≡ err e
      → IsListing from_json kvs results
      → IsListing from_json (kv ∷ kvs) results

module _ {W : Type 0} (env : Env W) (to_json : Asset → Result Bytes Text)
    (from_json : Bytes → Result Asset Text) (ctx : ChaincodeStub) where
  assets_of-IsListing :
      (kvs : List Kv) → IsListing from_json kvs (assets_of env to_json from_json ctx kvs)
  unfolding assets_of
  assets_of-IsListing [] = end
  assets_of-IsListing (kv ∷ kvs) = elim (result_cases (from_json kv.value)) [
    | inl (a, read) ↦ rw (read, kept) (listed read (assets_of-IsListing kvs))
    | inr (e, failed) ↦ rw (failed, kept) (left_out failed (assets_of-IsListing kvs))
  ]

  -- If the peer serves the range of all keys and the transaction has no request in flight, then with
  -- fuel for each record and each batch `get_all_assets` returns the records that are assets, in
  -- order, each with its key, and leaves out the others; the query has been closed, the event slot is
  -- as it was, and the transaction has no request in flight.
  pub get_all_assets-Scans :
      (fuel : ℕ) (s : Session W) (kvs : List Kv) (w' : W)
      → IsIdle ctx.core s
      → Scans env ctx fuel [] [] s.world kvs w'
      → (results : List QueryResult) × (s' : Session W) × (get_all_assets env to_json from_json ctx
            fuel s
          ≡ (done (ok results), s'))
        × IsListing from_json kvs results
        × Stays ctx.core s s' w'
  unfolding get_all_assets
  get_all_assets-Scans fuel s kvs w' idle scan =
      let (it, s1, s', opened, read, st) = range-Scans env ctx fuel [] [] s kvs w' idle scan in
      (
        assets_of env to_json from_json ctx kvs,
        s',
        rw (opened, read) refl,
        assets_of-IsListing kvs,
        st,
      )
