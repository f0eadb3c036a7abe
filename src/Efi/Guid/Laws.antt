-- ===== src/Efi/Guid/Laws.antt =====
-- kprobes/efi_reboot_monitor.c: the text of a GUID, and reading it back.
use kernel_examples.Prelude.{
  ℕ, zero, suc, ◌+◌, ◌*◌, ◌<◌, ◌≡◌, refl, arith, some, List, [], ◌∷◌, ◌++◌, length, get_or, hex,
  unhex_digit, unhex-hex,
}
use kernel_examples.Efi.Guid.{set_guid}

-- The form of a GUID: the first three groups are little-endian numbers, the rest is in order.
abbrev pub guid_text : (ℕ → ℕ) → List ℕ
guid_text b =
    hex (b 3)
    ++ (hex (b 2)
        ++ (hex (b 1)
            ++ (hex (b 0)
                ++ (b'-'
                    ∷ (hex (b 5)
                        ++ (hex (b 4)
                            ++ (b'-'
                                ∷ (hex (b 7)
                                    ++ (hex (b 6)
                                        ++ (b'-'
                                            ∷ (hex (b 8)
                                                ++ (hex (b 9)
                                                    ++ (b'-'
                                                        ∷ (hex (b 10)
                                                            ++ (hex (b 11)
                                                            ++ (hex (b 12)
                                                            ++ (hex (b 13)
                                                            ++ (hex (b 14)
                                                            ++ hex (b 15)))))))))))))))))))

-- set_guid stays inside its array and fills it exactly: with the 36 characters of the form, and the
-- zero byte that ends them.
pub set_guid_lem : (b : ℕ → ℕ) → set_guid b ≡ some (guid_text b ++ (0 ∷ []))
unfolding set_guid
set_guid_lem b = refl

-- Where the digits of byte `i` stand.
abbrev pub place : ℕ → ℕ
place i = get_or (6 ∷ 4 ∷ 2 ∷ 0 ∷ 11 ∷ 9 ∷ 16 ∷ 14 ∷ 19 ∷ 21 ∷ 24 ∷ 26 ∷ 28 ∷ 30 ∷ 32 ∷ 34 ∷ []) i 0

-- The byte that the text shows at `i`.
abbrev pub byte_at : List ℕ → ℕ → ℕ
byte_at text i =
    unhex_digit (get_or text (place i) 0) * 16 + unhex_digit (get_or text (suc (place i)) 0)

byte_at-guid_text :
    (b : ℕ → ℕ) (i : ℕ) → ((j : ℕ) → b j < 256) → i < 16 → byte_at (guid_text b ++ (0 ∷ [])) i ≡ b i
byte_at-guid_text b zero bytes h = unhex-hex (b 0) (bytes 0)
byte_at-guid_text b (suc zero) bytes h = unhex-hex (b 1) (bytes 1)
byte_at-guid_text b (suc (suc zero)) bytes h = unhex-hex (b 2) (bytes 2)
byte_at-guid_text b (suc (suc (suc zero))) bytes h = unhex-hex (b 3) (bytes 3)
byte_at-guid_text b (suc (suc (suc (suc zero)))) bytes h = unhex-hex (b 4) (bytes 4)
byte_at-guid_text b (suc (suc (suc (suc (suc zero))))) bytes h = unhex-hex (b 5) (bytes 5)
byte_at-guid_text b (suc (suc (suc (suc (suc (suc zero)))))) bytes h = unhex-hex (b 6) (bytes 6)
byte_at-guid_text b (suc (suc (suc (suc (suc (suc (suc zero))))))) bytes h =
    unhex-hex (b 7) (bytes 7)
byte_at-guid_text b (suc (suc (suc (suc (suc (suc (suc (suc zero)))))))) bytes h =
    unhex-hex (b 8) (bytes 8)
byte_at-guid_text b (suc (suc (suc (suc (suc (suc (suc (suc (suc zero))))))))) bytes h =
    unhex-hex (b 9) (bytes 9)
byte_at-guid_text b (suc (suc (suc (suc (suc (suc (suc (suc (suc (suc zero)))))))))) bytes h =
    unhex-hex (b 10) (bytes 10)
byte_at-guid_text b (suc (suc (suc (suc (suc (suc (suc (suc (suc (suc (suc zero))))))))))) bytes h =
    unhex-hex (b 11) (bytes 11)
byte_at-guid_text b (suc (suc (suc (suc (suc (suc (suc (suc (suc (suc (suc (suc zero))))))))))))
      bytes h =
    unhex-hex (b 12) (bytes 12)
byte_at-guid_text b
      (suc (suc (suc (suc (suc (suc (suc (suc (suc (suc (suc (suc (suc zero))))))))))))) bytes h =
    unhex-hex (b 13) (bytes 13)
byte_at-guid_text b
      (suc (suc (suc (suc (suc (suc (suc (suc (suc (suc (suc (suc (suc (suc zero)))))))))))))) bytes
      h =
    unhex-hex (b 14) (bytes 14)
byte_at-guid_text b
      (suc (suc (suc (suc (suc (suc (suc (suc (suc (suc (suc (suc (suc (suc (suc zero)))))))))))))))
      bytes h =
    unhex-hex (b 15) (bytes 15)
byte_at-guid_text b
      (suc
        (suc (suc (suc (suc (suc (suc (suc (suc (suc (suc (suc (suc (suc (suc (suc i))))))))))))))))
      bytes h =
    absurd (omega arith)

-- The text of a GUID has 37 bytes, and each of its 16 bytes can be read back from it.
byte_at-set_guid :
    (b : ℕ → ℕ) (i : ℕ)
    → ((j : ℕ) → b j < 256)
    → i < 16
    → (text : List ℕ) × (set_guid b ≡ some text) × (length text ≡ 37) × (byte_at text i ≡ b i)
byte_at-set_guid b i bytes h =
    (guid_text b ++ (0 ∷ []), set_guid_lem b, refl, byte_at-guid_text b i bytes h)
