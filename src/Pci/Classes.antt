-- ===== src/Pci/Classes.antt =====
-- drivers/pci.c: the names of the classes and subclasses of devices.
use Prim.Native.String.{String}
use osdev.Prelude.{ℕ, List, [], ◌∷◌, ◌==◌, leb, if◌then◌else◌, get_or}

-- `pci_clookup_t`
abbrev pub PciClookup : Type 0
PciClookup = ℕ × String

abbrev pci_class_0 : List PciClookup
pci_class_0 = (0, "Unclassified device") ∷ (1, "VGA compatible") ∷ []

abbrev pci_class_1 : List PciClookup
pci_class_1 =
    (0, "SCSI controller")
    ∷ (1, "IDE controller")
    ∷ (2, "Floppy disk controller")
    ∷ (3, "IPI bus controller")
    ∷ (4, "RAID controller")
    ∷ (5, "ATA controller")
    ∷ (6, "SATA controller")
    ∷ (7, "SAS controller")
    ∷ (8, "NVRAM controller")
    ∷ (128, "Generic mass storage controller")
    ∷ []

abbrev pci_class_2 : List PciClookup
pci_class_2 =
    (0, "Ethernet controller")
    ∷ (1, "Token ring controller")
    ∷ (2, "FDDI controller")
    ∷ (3, "ATM controller")
    ∷ (4, "ISDN controller")
    ∷ (5, "WorldFip controller")
    ∷ (6, "PICMG 2.14 controller")
    ∷ (7, "Infiniband controller")
    ∷ (8, "Fabric controller")
    ∷ (128, "Generic network controller")
    ∷ []

abbrev pci_class_3 : List PciClookup
pci_class_3 =
    (0, "VGA compatible controller")
    ∷ (1, "XGA controller")
    ∷ (2, "3D controller")
    ∷ (128, "Generic display controller")
    ∷ []

abbrev pci_class_4 : List PciClookup
pci_class_4 =
    (0, "Video controller")
    ∷ (1, "Audio controller")
    ∷ (2, "Computer telephony device")
    ∷ (3, "Audio device")
    ∷ (128, "Generic multimedia controller")
    ∷ []

abbrev pci_class_5 : List PciClookup
pci_class_5 =
    (0, "RAM controller") ∷ (1, "Flash controller") ∷ (128, "Generic memory controller") ∷ []

abbrev pci_class_6 : List PciClookup
pci_class_6 =
    (0, "Host bridge")
    ∷ (1, "ISA bridge")
    ∷ (2, "EISA bridge")
    ∷ (3, "MCA bridge")
    ∷ (4, "PCI to PCI bridge")
    ∷ (5, "PCMCIA bridge")
    ∷ (6, "NuBus bridge")
    ∷ (7, "CardBus bridge")
    ∷ (8, "RACEway bridge")
    ∷ (9, "PCI to PCI bridge")
    ∷ (10, "Infiniband to PCI host bridge")
    ∷ (128, "Generic bridge")
    ∷ []

abbrev pci_class_7 : List PciClookup
pci_class_7 =
    (0, "Serial controller")
    ∷ (1, "Parallel controller")
    ∷ (2, "Multiport serial controller")
    ∷ (3, "Modem")
    ∷ (4, "IEEE 488.1/2 controller")
    ∷ (5, "Smart Card controller")
    ∷ (128, "Generic communication controller")
    ∷ []

abbrev pci_class_8 : List PciClookup
pci_class_8 =
    (0, "Programmable interrupt controller")
    ∷ (1, "DMA controller")
    ∷ (2, "System timer")
    ∷ (3, "Real-time clock controller")
    ∷ (4, "PCI Hotplug controller")
    ∷ (5, "SD host controller")
    ∷ (6, "IOMMU")
    ∷ (128, "Generic base system peripheral")
    ∷ []

abbrev pci_class_9 : List PciClookup
pci_class_9 =
    (0, "Keyboard controller")
    ∷ (1, "Digitizer pen")
    ∷ (2, "Mouse controller")
    ∷ (3, "Scanner controller")
    ∷ (4, "Gameport controller")
    ∷ (128, "Generic input device controller")
    ∷ []

abbrev pci_class_10 : List PciClookup
pci_class_10 = (0, "Docking station") ∷ (128, "Generic docking station") ∷ []

abbrev pci_class_11 : List PciClookup
pci_class_11 =
    (0, "Intel 386 processor")
    ∷ (1, "Intel 486 processor")
    ∷ (2, "Intel Pentium processor")
    ∷ (3, "Intel Pentium Pro processor")
    ∷ (16, "DEC Alpha processor")
    ∷ (32, "IBM PowerPC processor")
    ∷ (48, "MIPS processor")
    ∷ (64, "Co-processor")
    ∷ (128, "Generic processor")
    ∷ []

abbrev pci_class_12 : List PciClookup
pci_class_12 =
    (0, "FireWire controller")
    ∷ (1, "ACCESS bus controller")
    ∷ (2, "SSA controller")
    ∷ (3, "USB controller")
    ∷ (4, "Fibre channel")
    ∷ (5, "SMBus controller")
    ∷ (6, "InfiniBand controller")
    ∷ (7, "IPMI interface")
    ∷ (8, "SERCOS interface")
    ∷ (9, "CANBus controller")
    ∷ (128, "Generic serial bus controller")
    ∷ []

abbrev pci_class_13 : List PciClookup
pci_class_13 =
    (0, "iRDA compatible controller")
    ∷ (1, "Consumer IR controller")
    ∷ (16, "RF controller")
    ∷ (17, "Bluetooth controller")
    ∷ (18, "Broadband controller")
    ∷ (32, "802.1a Ethernet controller")
    ∷ (33, "802.1b Ethernet controller")
    ∷ (128, "Generic wireless controller")
    ∷ []

abbrev pci_class_14 : List PciClookup
pci_class_14 = (0, "I20 controller") ∷ []

abbrev pci_class_15 : List PciClookup
pci_class_15 =
    (1, "Satellite TV controller")
    ∷ (2, "Satellite audio controller")
    ∷ (3, "Satellite voice controller")
    ∷ (4, "Satellite data controller")
    ∷ []

abbrev pci_class_16 : List PciClookup
pci_class_16 =
    (0, "Network/Computing encryption controller")
    ∷ (16, "Entertainment encryption controller")
    ∷ (128, "Generic encryption controller")
    ∷ []

abbrev pci_class_17 : List PciClookup
pci_class_17 =
    (0, "DPIO module")
    ∷ (1, "Performance counter")
    ∷ (16, "Communication synchronizer")
    ∷ (32, "Signal processing manager")
    ∷ (128, "Generic signal processing controller")
    ∷ []

abbrev pub pci_classes : List (List PciClookup)
pci_classes =
    pci_class_0 ∷ pci_class_1 ∷ pci_class_2 ∷ pci_class_3 ∷ pci_class_4 ∷ pci_class_5 ∷ pci_class_6
    ∷ pci_class_7 ∷ pci_class_8 ∷ pci_class_9 ∷ pci_class_10 ∷ pci_class_11 ∷ pci_class_12
    ∷ pci_class_13 ∷ pci_class_14 ∷ pci_class_15 ∷ pci_class_16 ∷ pci_class_17 ∷ []

-- The loop over a row of `pci_class_lengths[class_code]` entries.
unfoldable pub find_class : List PciClookup → ℕ → String
find_class [] subclass = "Unknown subclass"
find_class ((code, name) ∷ row) subclass =
    if code == subclass then name else find_class row subclass

unfoldable pub pci_get_classname : ℕ → ℕ → String
unfolding find_class
pci_get_classname class_code subclass =
    if leb 18 class_code
    then "Unknown class"
    else find_class (get_or pci_classes class_code []) subclass
