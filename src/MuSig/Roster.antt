-- ===== src/MuSig/Roster.antt =====
-- The participants in any order: their keys have separate places, one for each key of the joint key.
use mathlib.Core.List.{Permᴰ}
use mathlib.Core.List.Permᴰ
use tari_crypto.Base.{
  ◌<◌, ◌≡◌, sym, ap, subst, ◌∙◌, Option, none, replicate, List, map, All, length, length-map, arith,
}
use tari_crypto.Base.Perm.{length-perm}
use tari_crypto.Keys.{PublicKey}
use tari_crypto.Keys.Laws.{KeyLaws, cmp-TotalOrder}
use tari_crypto.Std.Sort.{Distinct, Distinct-perm, sort, sort-perm, length-sort}
use tari_crypto.JointKey.{JointKey}
use tari_crypto.JointKey.Build.{IsJoint}
use tari_crypto.MuSig.Vacant.{Separate, Vacant, replicate-Vacant}
use tari_crypto.MuSig.Append.{map-map, All-unmap}
use tari_crypto.MuSig.Seats.{seat, Seated, keys-Seated, seats-Separate, seats-lt}
use tari_crypto.MuSig.Honest.{Participant, key, public_nonce, place, Indexed}

module _ {K P : Type 0} (pk : PublicKey K P) (jk : JointKey P K) where
  -- The joint key is that of these participants, at least one, whose keys and nonces differ.
  pub record Roster (ys : List (Participant K)) : Type 0 where
    pub sorted : jk.pub_keys ≡ sort pk.cmp (map (key pk) ys)
    pub different : Distinct pk.cmp (map (key pk) ys)
    pub apart : Distinct pk.cmp (map (public_nonce pk) ys)
    pub someone : 0 < length ys

module _ {K P : Type 0} {pk : PublicKey K P} (laws : KeyLaws pk) (jk : JointKey P K)
    (joint : IsJoint laws jk) where
  pub Roster-perm : {xs ys : List (Participant K)} → Permᴰ xs ys → Roster pk jk xs → Roster pk jk ys
  Roster-perm p r = record {
    sorted = r.sorted ∙ sort-perm pk.cmp (cmp-TotalOrder laws) (Permᴰ.map (key pk) p) r.different;
    different = Distinct-perm pk.cmp (cmp-TotalOrder laws) (Permᴰ.map (key pk) p) r.different;
    apart = Distinct-perm pk.cmp (cmp-TotalOrder laws) (Permᴰ.map (public_nonce pk) p) r.apart;
    someone = omega (arith, length-perm p, r.someone);
  }

  module _ (ys : List (Participant K)) (r : Roster pk jk ys) where
    seats : All (Seated laws jk joint) (map (key pk) ys)
    seats = keys-Seated laws jk joint (map (key pk) ys) r.sorted

    pub indexed : All (Indexed pk jk) ys
    indexed = All-unmap (Seated laws jk joint) (key pk) ys seats

    pub separate : Separate (map (place pk jk) ys)
    separate =
        subst Separate (map-map (seat pk jk) (key pk) ys)
          (seats-Separate laws jk joint (map (key pk) ys) seats r.different)

    pub vacant :
        (T : Type 0) (os : List (Option T))
        → os ≡ replicate (length jk.pub_keys) none
        → Vacant os (map (place pk jk) ys)
    vacant T os new =
        let inside : All (λ i. i < length jk.pub_keys) (map (place pk jk) ys) =
          subst (All (λ i. i < length jk.pub_keys)) (map-map (seat pk jk) (key pk) ys)
            (seats-lt laws jk joint (map (key pk) ys) seats) in
        let count : length jk.pub_keys ≡ length (map (place pk jk) ys) =
          ap length r.sorted
          ∙ (length-sort pk.cmp (map (key pk) ys)
              ∙ (length-map (key pk) ys ∙ sym (length-map (place pk jk) ys))) in
        subst (λ os. Vacant os (map (place pk jk) ys)) (sym new)
          (replicate-Vacant T (length jk.pub_keys) (map (place pk jk) ys) inside count)
