-- ===== src/Devices/Joints.antt =====
-- client/src/em/em_remote_experience.cpp and ems_gstreamer_pipeline.c: the joints of a hand arrive in order.
use electric_maple.Common.{
  ℕ, suc, ◌+◌, ◌≡◌, refl, ap, sym, ◌∙◌, some, List, [], ◌∷◌, ◌++◌, ◌<◌, length, arith,
}
use electric_maple.Proto.{HandJointLocation}
use electric_maple.Experience.{JointLocation, joint_locations, convert_pose}
use electric_maple.Devices.Instance.{
  Joints, set_at, cons_if, store_joint, store_joints, zero_joint, zero_joints, decoded_joints,
}

append_assoc : (xs ys zs : Joints) → (xs ++ ys) ++ zs ≡ xs ++ (ys ++ zs)
append_assoc [] ys zs = refl
append_assoc (x ∷ xs) ys zs = ap (λ t. x ∷ t) (append_assoc xs ys zs)

set_at-append :
    (pre : Joints) (j k : HandJointLocation) (rest : Joints)
    → set_at (length pre) j (pre ++ (k ∷ rest)) ≡ some (pre ++ (j ∷ rest))
set_at-append [] j k rest = refl
set_at-append (x ∷ pre) j k rest = ap (cons_if x) (set_at-append pre j k rest)

length_snoc : (pre : Joints) (j : HandJointLocation) → length (pre ++ (j ∷ [])) ≡ suc (length pre)
length_snoc [] j = refl
length_snoc (x ∷ pre) j = ap suc (length_snoc pre j)

module _ (float_of int_of : ℕ → ℕ) (exact : (n : ℕ) → n < 26 → int_of (float_of n) ≡ n) where
  stored :
      (pre : Joints) (js : List JointLocation) (n : ℕ)
      → length pre ≡ n
      → n + length js ≡ 26
      → store_joints int_of (joint_locations float_of n js) (some (pre ++ zero_joints (length js)))
        ≡ some (pre ++ joint_locations float_of n js)
  unfolding store_joints store_joint joint_locations
  stored pre [] n p e = refl
  stored pre (j ∷ js) n p e =
      ap (store_joints int_of (joint_locations float_of (suc n) js)) (
        ap (λ k. set_at k first (pre ++ (zero_joint ∷ zero_joints (length js))))
          (exact n (omega (arith, e)) ∙ sym p)
        ∙ set_at-append pre first zero_joint (zero_joints (length js))
        ∙ ap some (sym (append_assoc pre (first ∷ []) (zero_joints (length js)))))
      ∙ stored (pre ++ (first ∷ [])) js (suc n) (length_snoc pre first ∙ ap suc p)
          (omega (arith, e))
      ∙ ap some (append_assoc pre (first ∷ []) (joint_locations float_of (suc n) js))
    where
      first : HandJointLocation
      first = record { index = float_of n; pose = some (convert_pose j.pose); radius = j.radius }

-- When the floats of the numbers below 26 are cast back to them, the 26 joints that the client sends for a
-- hand are stored by the server in their order, and none is stored elsewhere.
pub joints_stored :
    (float_of int_of : ℕ → ℕ) (js : List JointLocation)
    → ((n : ℕ) → n < 26 → int_of (float_of n) ≡ n)
    → length js ≡ 26
    → decoded_joints int_of (joint_locations float_of 0 js) ≡ some (joint_locations float_of 0 js)
joints_stored float_of int_of js exact e =
    ap (λ n. store_joints int_of (joint_locations float_of 0 js) (some (zero_joints n))) (sym e)
    ∙ stored float_of int_of exact [] js 0 refl (omega (arith, e))
