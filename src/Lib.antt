-- ===== src/Lib.antt =====
-- A model of msoffice-crypto, which decrypts and encrypts Office documents, and proofs about it.
--
-- The parts, and the files that model them. A document in a binary format is probed for its format
-- and its encryption, its password is checked against a stored header, its streams are decrypted in
-- memory, and each is written back at its own length. A package is encrypted segment by segment, with
-- an HMAC over the stream that comes out; its key is drawn at random and stored under a key that the
-- password spins; and a reader checks the password, then the HMAC over the whole stream, and only then
-- writes.
--
--   Classification  src/classify.rs: the verdict types and their two predicates
--   FileParams      src/file_params.rs: which field of a file is wrong, and how
--   Error           src/error.rs, and the `?` of Rust as `>>=`
--   Hash            src/hash.rs: digests by name, derive_iv and fit_iv, HMAC states
--   Reader          src/cfb_reader.rs: read_full and read_capped over a source that may answer short,
--                   be interrupted or fail; `std::io::Take`
--   Cipher          the AES calls of src/agile.rs and src/standard.rs with their guards
--   Segments        src/segments.rs: Segmenter::new and Segmenter::fill
--   Integrity       src/integrity.rs: IntegrityCheck (new, start, finish), unwrap_blob, seal
--   Writer          a function that writes and may fail: the bytes written, and its result
--   EncryptParams   src/encrypt_params.rs with the bounds of src/limits.rs: validate
--   Agile.Keys      src/agile.rs: spin_hash, derive_block_key, verify_password, recover_session_key
--   Agile.Generate  src/agile_encrypt.rs: generate
--   Agile.Package   encrypt_package_to (src/agile_encrypt.rs), decrypt_package_to (src/agile.rs)
--   Agile.Seal      src/agile_encrypt.rs: encrypt_to up to the container
--   Agile.Open      src/agile.rs: check_integrity, and decrypt_to behind the XML parser
--   Standard        src/standard.rs and src/standard_encrypt.rs: the EncryptionInfo bytes, AesKeySize
--   Standard.Keys   the key ladder, verify_password and generate of standard encryption
--   Standard.Package  encrypt_package_to and decrypt_package_to of standard encryption
--   Standard.Open   encrypt_to up to the container, and decrypt_to, of standard encryption
--   Rc4             src/rc4.rs: Keystream, decrypt_in_blocks, decrypt_with_block, verify_password
--   XorObfuscation  src/xor_obfuscation.rs
--   BinaryOffice    src/binary_office.rs: the formats, the FIB of Word, the third-party `cfb` reader
--   BinaryOffice.Records  the BIFF record iterator and scan_for_filepass
--   BinaryOffice.Persist  record headers, the user edit atom and the persist directory of PowerPoint
--   BinaryOffice.Probe    probe_word, probe_excel, probe_powerpoint and probe_in
--   LegacyContainer src/legacy_container.rs over a compound file that can be rewritten
--   Rc4Office97     src/rc4_office97.rs, with utf16le_password of src/sensitive.rs
--   Rc4Cryptoapi    src/rc4_cryptoapi.rs
--   LegacyScheme    the choice between the two that src/word97.rs and src/excel97.rs make
--   EncryptedSummary  src/encrypted_summary.rs
--   Word97          src/word97.rs
--   Excel97         src/excel97.rs
--   PowerPoint97    src/powerpoint97.rs, its pictures in PowerPoint97.Pictures
--   DataSpaces      src/data_space_map.rs, and in DataSpaces.Streams the streams of src/dataspaces.rs
--   Classify        src/classify.rs: the binary formats, IRM, standard encryption, the dispatch; and
--                   encryptable of src/lib.rs
--   BinaryDecrypt   src/lib.rs: is_cfb_office and decrypt_binary_office
--   OoxmlDecrypt    src/lib.rs: decrypt_ooxml_core, decrypt_ooxml_to and decrypt_ooxml_with_policy
--   Base            names of the libraries, list lemmas, bytes, and exclusive or
--   Examples        the theorems at concrete inputs
--
-- Bytes are numbers below 256 where that matters, and integers keep their wrap-around as a remainder.
-- A buffer that the source changes in place is an argument and a result. The digests, HMAC, the AES
-- block modes and the RC4 keystream are the RustCrypto crates' and a parameter, `Crypto`; what is
-- relied on, lengths and that decryption undoes encryption, is the record `IsCrypto`. The random
-- source is a parameter that answers draw `k` of `n` bytes or fails. A password is its UTF-16LE bytes,
-- and the list of its characters for a binary format. The compound file is the cfb crate's and a
-- parameter: `Cfb` to read, `CompoundFile` to rewrite, with the laws `IsCompoundFile`. A
-- reader holds its content and a schedule of what its calls do.
--
-- Loops over a stream take fuel: one more than the bytes that are left, of which every round takes one
-- at least. The round-trip theorems are about the functions with that fuel, so that it is enough. The
-- record walk and the loops over the persist directory and the pictures have one more than the bytes
-- too, of which a record header takes four and a directory word or a picture at least as many. A
-- package has at most 0x7FFFFFF0 bytes, which keeps segment indices below 2^32.
--
-- Not modelled: the XML of agile EncryptionInfo (written by src/encryption_info.rs, parsed by
-- src/agile.rs on quick_xml, classified by classify_agile), for which `read_back` states which
-- attribute carries which value; the insides of a compound file, and the order in which
-- src/dataspaces.rs fills it; the encrypting entry points of src/lib.rs and the opening of files
-- (classify_from); the clearing of secrets in memory (src/sensitive.rs); text of messages; the command
-- line; tests.
pub mod Base
pub mod BinaryOffice
pub mod LegacyContainer
pub mod EncryptedSummary
pub mod LegacyScheme
pub mod Excel97
pub mod Word97
pub mod DataSpaces
pub mod Classify
pub mod BinaryDecrypt
pub mod PowerPoint97
pub mod Classification
pub mod FileParams
pub mod Error
pub mod Hash
pub mod Reader
pub mod Cipher
pub mod Segments
pub mod Integrity
pub mod Writer
pub mod EncryptParams
pub mod Agile
pub mod Standard
pub mod Rc4
pub mod Rc4Office97
pub mod Rc4Cryptoapi
pub mod XorObfuscation
pub mod Examples
pub mod OoxmlDecrypt
