-- ===== src/Examples/Devices.antt =====
-- A bus whose every register holds the same word.
use leoman.Base.{◌%◌, ◌^◌, ◌≤◌, ◌<◌, ◌≡◌, arith}
use leoman.Devices.{pci_read_config}
use leoman.Devices.Laws.{pci_read_config_lem}

pci_read_config_example :
    (2 % 4 < 2 → pci_read_config (λ id. 0x12378086) 0 1 0 2 ≡ 0x12378086 % 2 ^ 16)
    × (2 ≤ 2 % 4 → pci_read_config (λ id. 0x12378086) 0 1 0 2 ≡ 0)
pci_read_config_example =
    pci_read_config_lem (λ id. 0x12378086) 0 1 0 2 (omega arith) (omega arith) (omega arith)
      (omega arith)
