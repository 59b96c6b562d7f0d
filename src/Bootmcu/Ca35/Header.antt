-- ===== src/Bootmcu/Ca35/Header.antt =====
-- The payload of the CA35 that an A2 loads (app-rot/src/bin/rot_ast2700_bootmcu.rs).
use mcu_runtime.Base.{ℕ, ◌+◌, ◌≡◌, ◌⊎◌, inl, inr, true, Bool-cases, some, Option-cases, arith}
use mcu_runtime.Base.Words.{as_u32}
use mcu_runtime.Bootmcu.Load.{Bus}
use mcu_runtime.Bootmcu.Soc.{Soc, HwRev, Image, secure_boot_enabled}
use mcu_runtime.Bootmcu.Auth.{authorize_ca35_a2}
use mcu_runtime.Bootmcu.Auth.Trusted.{IsAuthorized, authorize_iff}
use mcu_runtime.Bootmcu.Ca35.{
  read_header, is_checked, load_a2_image, load_ca35_payload_a2, a2_ca35_load_addr,
}

module _ {M F O : Type 0} (b : Bus M) (soc : Soc M F O) where
  -- The header at an address has one of the two magics and the right check, and leads to the entry.
  pub record IsHeader (hdr_addr entry : ℕ) (m : M) : Type 0 where
    pub magic :
        ((read_header b soc hdr_addr m).magic ≡ soc.raw_a35_header_magic)
        ⊎ ((read_header b soc hdr_addr m).magic ≡ soc.raw_a35_header_m77_magic)
    pub checked : is_checked b soc (read_header b soc hdr_addr m) ≡ true
    pub leads : entry ≡ as_u32 (a2_ca35_load_addr + (read_header b soc hdr_addr m).entry_off)

  -- The image with the CA35's number is authorized with its size, and its header leads to the
  -- entry.
  pub record IsA2Payload (hw : HwRev) (entry : ℕ) (m : M) : Type 0 where
    pub container : F
    pub parsed : soc.parse_for hw m ≡ some container
    pub image : Image
    pub listed : soc.find_image container (soc.id_soc_images_base + 7) ≡ some image
    pub authorized : IsAuthorized b soc image.size m
    pub hdr_addr : ℕ
    pub stands : soc.image_addr container (soc.id_soc_images_base + 7) ≡ some hdr_addr
    pub header : IsHeader hdr_addr entry (authorize_ca35_a2 b soc image.size m).0

  loaded-IsHeader :
      (size hdr_addr entry : ℕ) (m : M)
      → (load_a2_image b soc size hdr_addr m).1 ≡ some entry
      → IsHeader hdr_addr entry m
  unfolding load_a2_image
  loaded-IsHeader size hdr_addr entry m h = record {
    magic = ground arith;
    checked = ground arith;
    leads = ground arith;
  }

  -- With secure boot, an A2 has an entry only of an authorized payload.
  pub loaded-IsA2Payload :
      ((m : M) → secure_boot_enabled b m ≡ true)
      → (hw : HwRev) (entry : ℕ) (m : M) → (load_ca35_payload_a2 b soc hw m).1 ≡ some entry
      → IsA2Payload hw entry m
  unfolding load_ca35_payload_a2
  loaded-IsA2Payload secure hw entry m h =
      let id = soc.id_soc_images_base + 7 in
      elim (Option-cases (soc.parse_for hw m)) [
        | inl e ↦ absurd (ground arith)
        | inr (container, p) ↦ elim (Option-cases (soc.find_image container id)) [
          | inl e ↦ absurd (ground arith)
          | inr (img, l) ↦
              let (m1, authorized) = authorize_ca35_a2 b soc img.size m in
              elim (Bool-cases authorized) [
                | inr d ↦ absurd (ground arith)
                | inl a ↦ elim (Option-cases (soc.image_addr container id)) [
                  | inl e ↦ absurd (ground arith)
                  | inr (hdr_addr, s) ↦ record {
                    container = container;
                    parsed = p;
                    image = img;
                    listed = l;
                    authorized = (authorize_iff b soc secure img.size m).0 a;
                    hdr_addr = hdr_addr;
                    stands = s;
                    header = loaded-IsHeader img.size hdr_addr entry m1 (ground arith);
                  }
                ]
              ]
        ]
      ]
