-- ===== src/Contacts/BackupTests.antt =====
-- The theorems on the backup at concrete inputs.
use axe_voice_desktop.Prelude.{
  true, ◌≡◌, ◌==◌, ◌||◌, ltb, [], ◌∷◌, ◌++◌, map, some, refl, arith, Text, codes, between, is_digit,
}
use axe_voice_desktop.Call.Address
use axe_voice_desktop.Call.Address.{WideClasses}
use axe_voice_desktop.Contacts.Draft
use axe_voice_desktop.Contacts.Book.{Contact, ContactBook}
use axe_voice_desktop.Contacts.Book.Inv
use axe_voice_desktop.Contacts.Backup
use axe_voice_desktop.Contacts.Backup.{encode_contact_backup}
use axe_voice_desktop.Contacts.Backup.Contacts.{decode_contact_backup}
use axe_voice_desktop.Contacts.Backup.RoundTrip.{decode_contact_backup-encode_contact_backup}
use axe_voice_desktop.Contacts.Backup.Fuel.{Suffices, loops_end}

-- The classes of the ASCII characters.
abbrev ascii : WideClasses
ascii = record {
  iswspace = λ c. c == 32 || between 9 13 c;
  iswcntrl = λ c. ltb c 32 || c == 127;
  iswdigit = is_digit;
}

-- A name with a quotation mark, a letter beyond ASCII and a pair.
abbrev name : Text
name = b'"' ∷ 0xc1 ∷ 0xd83d ∷ 0xde00 ∷ []

abbrev contact : Contact
contact = record { id = 1; name = name; destination = codes "1001"; favorite = true }

abbrev book : ContactBook
book = record { items = contact ∷ []; next_id = 2 }

book-IsValid : Inv.IsValid ascii book
unfolding Inv.IsKept Draft.valid_draft Draft.valid_name Draft.name_from Address.validate_address
    Address.validate_value
book-IsValid = record {
  small = ground arith;
  apart = (tt, tt);
  kept = ((ground arith, ground arith, refl), tt);
  word = ground arith;
}

abbrev bytes : Text
bytes =
    codes "{\"version\":1,\"contacts\":[{\"name\":\"\\\""
    ++ (0xc3 ∷ 0x81 ∷ 0xf0 ∷ 0x9f ∷ 0x98 ∷ 0x80 ∷ [])
    ++ codes "\",\"destination\":\"1001\",\"favorite\":true}]}"

encodes : encode_contact_backup ascii book ≡ some bytes
unfolding encode_contact_backup Backup.encode_from Backup.contact_text Backup.escape_from
    Backup.escaped Backup.utf8 Draft.valid_draft Draft.valid_name Draft.name_from
    Address.validate_address Address.validate_value
encodes = refl

decode_contact_backup-encode_contact_backup_example :
    decode_contact_backup ascii bytes ≡ some (map Backup.draft_of book.items)
decode_contact_backup-encode_contact_backup_example =
    decode_contact_backup-encode_contact_backup ascii book bytes book-IsValid (refl, tt) encodes

loops_end_example : Suffices ascii 3 bytes
loops_end_example = loops_end ascii 3 bytes
