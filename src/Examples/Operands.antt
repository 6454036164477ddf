-- ===== src/Examples/Operands.antt =====
-- Operands of robot commands.
use vtladm.Prelude.{◌≡◌, arith, some, pos, codes, decimal, digits_onto}
use vtladm.Operands.{parse_slot, parse_drive}
use vtladm.Operands.Read.{operands_read, mail_names_data_slot}

operands_read_example :
    (parse_slot (codes "2") ≡ some (pos 2))
    × (parse_slot (codes "slot2") ≡ some (pos 2))
    × (parse_slot (codes "mail2") ≡ some (pos 102))
    × (parse_drive (codes "1") ≡ some 1)
    × (parse_drive (codes "drive1") ≡ some 1)
unfolding decimal digits_onto
operands_read_example = operands_read 2 1 (omega arith) (omega arith)

mail_names_data_slot_example : parse_slot (codes "mail-5") ≡ some (pos 95)
unfolding decimal digits_onto
mail_names_data_slot_example = mail_names_data_slot 5 (omega arith) (omega arith)
