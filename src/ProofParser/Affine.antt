-- ===== src/ProofParser/Affine.antt =====
-- The points that `convert_g1` of src/proof_parser.rs makes.
use groth16_solana.Prelude.{
  ◌<◌, ◌≡◌, refl, ◌∙◌, ap, sym, subst, ◌⊎◌, inl, inr, Bool, true, false, ◌&&◌, Result, ok, err,
  >>=-eq-ok, ok_injective, map_err, if◌then◌else◌, arith, ==→eq,
}
use groth16_solana.Prelude.Bytes.{Bytes}
use groth16_solana.Errors.{from_serialization_error}
use groth16_solana.Negate.{fq_modulus}
use groth16_solana.ProofParser.Points.{Ark, CircomG1, convert_coordinate, convert_g1}
use groth16_solana.ProofParser.Laws.{IsArk}
use groth16_solana.ProofParser.Coordinate.{coordinate-ok}

both_true : (a b : Bool) → (a && b) ≡ true → (a ≡ true) × (b ≡ true)
both_true true b h = (refl, h)
both_true false b h = absurd cc

module _ (ark : Ark) (laws : IsArk ark) where
  -- A point that is converted has coordinates below p, and they are those of the affine point.
  pub record IsPoint (point : CircomG1) (affine : Ark.G1Affine ark) : Type 0 where
    pub x_below : point.x < fq_modulus
    pub y_below : point.y < fq_modulus
    pub x : laws.value (ark.g1_x affine) ≡ point.x
    pub y : laws.value (ark.g1_y affine) ≡ point.y
    pub order : (point.x ≡ 0) × (point.y ≡ 0) ⊎ (0 < point.y)

  checked :
      (r : Result Bytes (Unit {0})) {done : Unit {0}}
      → map_err from_serialization_error r ≡ ok done
      → r ≡ ok tt
  checked (ok tt) h = refl
  checked (err m) h = absurd cc

  pub convert_g1-ok :
      (point : CircomG1) {affine : Ark.G1Affine ark}
      → convert_g1 ark point ≡ ok affine
      → IsPoint point affine
  unfolding convert_g1
  convert_g1-ok point {affine} e =
      let (x, ex, k1) = >>=-eq-ok (convert_coordinate ark (ark.to_bytes_le point.x)) _ e in
      let (y, ey, k2) = >>=-eq-ok (convert_coordinate ark (ark.to_bytes_le point.y)) _ k1 in
      let (done, ec, k3) =
        >>=-eq-ok (map_err from_serialization_error (ark.g1_check (affine_of x y))) _ k2 in
      let (bx, vx) = coordinate-ok ark laws point.x ex in
      let (by, vy) = coordinate-ok ark laws point.y ey in
      subst (IsPoint point) (ok_injective k3)
        (built x y bx by vx vy (checked (ark.g1_check (affine_of x y)) ec))
    where
      affine_of : Ark.Fq ark → Ark.Fq ark → Ark.G1Affine ark
      affine_of x y =
          if ark.is_zero x && ark.is_zero y then ark.g1_identity else ark.g1_new_unchecked x y

      built :
          (x y : Ark.Fq ark)
          → point.x < fq_modulus
          → point.y < fq_modulus
          → laws.value x ≡ point.x
          → laws.value y ≡ point.y
          → ark.g1_check (affine_of x y) ≡ ok tt
          → IsPoint point (affine_of x y)
      built x y bx by vx vy c = by_case (ark.is_zero x && ark.is_zero y) refl c
        where
          by_case :
              (b : Bool)
              → (ark.is_zero x && ark.is_zero y) ≡ b
              → ark.g1_check (if b then ark.g1_identity else ark.g1_new_unchecked x y) ≡ ok tt
              → IsPoint point (if b then ark.g1_identity else ark.g1_new_unchecked x y)
          by_case true z k =
              let (zx, zy) = both_true (ark.is_zero x) (ark.is_zero y) z in
              let x0 : point.x ≡ 0 =
                sym vx ∙ ==→eq (laws.value x) 0 (sym (laws.zero_test x) ∙ zx) in
              let y0 : point.y ≡ 0 =
                sym vy ∙ ==→eq (laws.value y) 0 (sym (laws.zero_test y) ∙ zy) in
              record {
                x_below = bx;
                y_below = by;
                x = laws.identity_x ∙ sym x0;
                y = laws.identity_y ∙ sym y0;
                order = inl (x0, y0);
              }
          by_case false z k = record {
            x_below = bx;
            y_below = by;
            x = ap laws.value (laws.point_x x y) ∙ vx;
            y = ap laws.value (laws.point_y x y) ∙ vy;
            order = inr (omega (arith, vy, laws.odd_order x y k));
          }
