-- ===== src/Samples/Certificate.antt =====
-- The bytes of src/test/ed25519/cert.der, the self-signed certificate of a test case.
use simple_x509_authenticate.Common.{[], ◌∷◌, Bytes}

abbrev pub certificate : Bytes
certificate =
    0x30 ∷ 0x82 ∷ 0x01 ∷ 0xd0 ∷ 0x30 ∷ 0x82 ∷ 0x01 ∷ 0x82 ∷ 0xa0 ∷ 0x03 ∷ 0x02 ∷ 0x01 ∷ 0x02 ∷ 0x02
    ∷ 0x14 ∷ 0x12 ∷ 0xeb ∷ 0xb4 ∷ 0xc6 ∷ 0x85 ∷ 0x83 ∷ 0xbd ∷ 0x8f ∷ 0xfb ∷ 0xc5 ∷ 0x95 ∷ 0xea
    ∷ 0xd0 ∷ 0xab ∷ 0xfe ∷ 0x1e ∷ 0xe0 ∷ 0xa3 ∷ 0x73 ∷ 0x0d ∷ 0x30 ∷ 0x05 ∷ 0x06 ∷ 0x03 ∷ 0x2b
    ∷ 0x65 ∷ 0x70 ∷ 0x30 ∷ 0x4b ∷ 0x31 ∷ 0x0b ∷ 0x30 ∷ 0x09 ∷ 0x06 ∷ 0x03 ∷ 0x55 ∷ 0x04 ∷ 0x06
    ∷ 0x13 ∷ 0x02 ∷ 0x43 ∷ 0x41 ∷ 0x31 ∷ 0x10 ∷ 0x30 ∷ 0x0e ∷ 0x06 ∷ 0x03 ∷ 0x55 ∷ 0x04 ∷ 0x08
    ∷ 0x0c ∷ 0x07 ∷ 0x4f ∷ 0x6e ∷ 0x74 ∷ 0x61 ∷ 0x72 ∷ 0x69 ∷ 0x6f ∷ 0x31 ∷ 0x12 ∷ 0x30 ∷ 0x10
    ∷ 0x06 ∷ 0x03 ∷ 0x55 ∷ 0x04 ∷ 0x0a ∷ 0x0c ∷ 0x09 ∷ 0x43 ∷ 0x61 ∷ 0x6e ∷ 0x6f ∷ 0x6e ∷ 0x69
    ∷ 0x63 ∷ 0x61 ∷ 0x6c ∷ 0x31 ∷ 0x16 ∷ 0x30 ∷ 0x14 ∷ 0x06 ∷ 0x03 ∷ 0x55 ∷ 0x04 ∷ 0x03 ∷ 0x0c
    ∷ 0x0d ∷ 0x63 ∷ 0x61 ∷ 0x6e ∷ 0x6f ∷ 0x6e ∷ 0x69 ∷ 0x63 ∷ 0x61 ∷ 0x6c ∷ 0x2e ∷ 0x63 ∷ 0x6f
    ∷ 0x6d ∷ 0x30 ∷ 0x1e ∷ 0x17 ∷ 0x0d ∷ 0x32 ∷ 0x35 ∷ 0x31 ∷ 0x31 ∷ 0x30 ∷ 0x39 ∷ 0x31 ∷ 0x38
    ∷ 0x30 ∷ 0x31 ∷ 0x32 ∷ 0x30 ∷ 0x5a ∷ 0x17 ∷ 0x0d ∷ 0x32 ∷ 0x36 ∷ 0x31 ∷ 0x31 ∷ 0x30 ∷ 0x39
    ∷ 0x31 ∷ 0x38 ∷ 0x30 ∷ 0x31 ∷ 0x32 ∷ 0x30 ∷ 0x5a ∷ 0x30 ∷ 0x4b ∷ 0x31 ∷ 0x0b ∷ 0x30 ∷ 0x09
    ∷ 0x06 ∷ 0x03 ∷ 0x55 ∷ 0x04 ∷ 0x06 ∷ 0x13 ∷ 0x02 ∷ 0x43 ∷ 0x41 ∷ 0x31 ∷ 0x10 ∷ 0x30 ∷ 0x0e
    ∷ 0x06 ∷ 0x03 ∷ 0x55 ∷ 0x04 ∷ 0x08 ∷ 0x0c ∷ 0x07 ∷ 0x4f ∷ 0x6e ∷ 0x74 ∷ 0x61 ∷ 0x72 ∷ 0x69
    ∷ 0x6f ∷ 0x31 ∷ 0x12 ∷ 0x30 ∷ 0x10 ∷ 0x06 ∷ 0x03 ∷ 0x55 ∷ 0x04 ∷ 0x0a ∷ 0x0c ∷ 0x09 ∷ 0x43
    ∷ 0x61 ∷ 0x6e ∷ 0x6f ∷ 0x6e ∷ 0x69 ∷ 0x63 ∷ 0x61 ∷ 0x6c ∷ 0x31 ∷ 0x16 ∷ 0x30 ∷ 0x14 ∷ 0x06
    ∷ 0x03 ∷ 0x55 ∷ 0x04 ∷ 0x03 ∷ 0x0c ∷ 0x0d ∷ 0x63 ∷ 0x61 ∷ 0x6e ∷ 0x6f ∷ 0x6e ∷ 0x69 ∷ 0x63
    ∷ 0x61 ∷ 0x6c ∷ 0x2e ∷ 0x63 ∷ 0x6f ∷ 0x6d ∷ 0x30 ∷ 0x2a ∷ 0x30 ∷ 0x05 ∷ 0x06 ∷ 0x03 ∷ 0x2b
    ∷ 0x65 ∷ 0x70 ∷ 0x03 ∷ 0x21 ∷ 0x00 ∷ 0xfd ∷ 0x4b ∷ 0x89 ∷ 0xf6 ∷ 0xda ∷ 0x40 ∷ 0x78 ∷ 0x82
    ∷ 0x64 ∷ 0x74 ∷ 0x87 ∷ 0x7f ∷ 0x06 ∷ 0x7d ∷ 0x2d ∷ 0xbb ∷ 0x59 ∷ 0xa1 ∷ 0x70 ∷ 0x15 ∷ 0x73
    ∷ 0xcd ∷ 0xe5 ∷ 0x88 ∷ 0xfc ∷ 0x2a ∷ 0x9d ∷ 0xab ∷ 0xd3 ∷ 0x4b ∷ 0x93 ∷ 0x09 ∷ 0xa3 ∷ 0x78
    ∷ 0x30 ∷ 0x76 ∷ 0x30 ∷ 0x1d ∷ 0x06 ∷ 0x03 ∷ 0x55 ∷ 0x1d ∷ 0x0e ∷ 0x04 ∷ 0x16 ∷ 0x04 ∷ 0x14
    ∷ 0x02 ∷ 0xca ∷ 0x26 ∷ 0x85 ∷ 0xb5 ∷ 0x39 ∷ 0x33 ∷ 0xac ∷ 0x92 ∷ 0xd2 ∷ 0xab ∷ 0xaf ∷ 0x69
    ∷ 0x88 ∷ 0xe6 ∷ 0xfa ∷ 0xca ∷ 0x47 ∷ 0xf2 ∷ 0xe8 ∷ 0x30 ∷ 0x1f ∷ 0x06 ∷ 0x03 ∷ 0x55 ∷ 0x1d
    ∷ 0x23 ∷ 0x04 ∷ 0x18 ∷ 0x30 ∷ 0x16 ∷ 0x80 ∷ 0x14 ∷ 0x02 ∷ 0xca ∷ 0x26 ∷ 0x85 ∷ 0xb5 ∷ 0x39
    ∷ 0x33 ∷ 0xac ∷ 0x92 ∷ 0xd2 ∷ 0xab ∷ 0xaf ∷ 0x69 ∷ 0x88 ∷ 0xe6 ∷ 0xfa ∷ 0xca ∷ 0x47 ∷ 0xf2
    ∷ 0xe8 ∷ 0x30 ∷ 0x12 ∷ 0x06 ∷ 0x03 ∷ 0x55 ∷ 0x1d ∷ 0x13 ∷ 0x01 ∷ 0x01 ∷ 0xff ∷ 0x04 ∷ 0x08
    ∷ 0x30 ∷ 0x06 ∷ 0x01 ∷ 0x01 ∷ 0xff ∷ 0x02 ∷ 0x01 ∷ 0x00 ∷ 0x30 ∷ 0x0b ∷ 0x06 ∷ 0x03 ∷ 0x55
    ∷ 0x1d ∷ 0x0f ∷ 0x04 ∷ 0x04 ∷ 0x03 ∷ 0x02 ∷ 0x02 ∷ 0x84 ∷ 0x30 ∷ 0x13 ∷ 0x06 ∷ 0x03 ∷ 0x55
    ∷ 0x1d ∷ 0x25 ∷ 0x04 ∷ 0x0c ∷ 0x30 ∷ 0x0a ∷ 0x06 ∷ 0x08 ∷ 0x2b ∷ 0x06 ∷ 0x01 ∷ 0x05 ∷ 0x05
    ∷ 0x07 ∷ 0x03 ∷ 0x03 ∷ 0x30 ∷ 0x05 ∷ 0x06 ∷ 0x03 ∷ 0x2b ∷ 0x65 ∷ 0x70 ∷ 0x03 ∷ 0x41 ∷ 0x00
    ∷ 0xbd ∷ 0x74 ∷ 0x90 ∷ 0x42 ∷ 0x5f ∷ 0x9c ∷ 0xd6 ∷ 0x88 ∷ 0x06 ∷ 0xf3 ∷ 0xdc ∷ 0xd6 ∷ 0xdb
    ∷ 0xfc ∷ 0x1d ∷ 0x38 ∷ 0x0b ∷ 0xfb ∷ 0x5f ∷ 0xc2 ∷ 0x3b ∷ 0xc0 ∷ 0xb7 ∷ 0x14 ∷ 0x1d ∷ 0x7d
    ∷ 0xa7 ∷ 0x05 ∷ 0x28 ∷ 0xf8 ∷ 0xf7 ∷ 0x62 ∷ 0x99 ∷ 0xd0 ∷ 0xc7 ∷ 0x0c ∷ 0x7b ∷ 0x59 ∷ 0xaf
    ∷ 0x47 ∷ 0x0b ∷ 0x3b ∷ 0xce ∷ 0xde ∷ 0xd8 ∷ 0xe3 ∷ 0x34 ∷ 0x81 ∷ 0xd2 ∷ 0xab ∷ 0x4a ∷ 0x17
    ∷ 0x1c ∷ 0x2d ∷ 0xca ∷ 0xcf ∷ 0x71 ∷ 0x49 ∷ 0xa3 ∷ 0x56 ∷ 0xb7 ∷ 0x9d ∷ 0x9e ∷ 0x0d ∷ []
