-- ===== src/Lib.antt =====
-- A server that runs shell scripts which were signed under trusted x509 certificates.
--
-- Parts of the program, and where they stand here
--
-- * src/x509.c and src/x509.h parse a DER certificate into index ranges of its bytes. X509/Der has
--   the functions that read one element (parse_any, parse_data_element, parse_null,
--   parse_optional_data, parse_default_bool, parse_bitstring_no_unused); X509/Extension the parsers
--   of the five supported extensions and their table; X509/Time parse_time; X509/Name parse_name and
--   parse_alg_id; X509/Certificate parse_x509, cut where its comments name the parts of a
--   certificate. X509/Fields is struct x509Fields, X509/Tag and X509/Code are the constants. Below
--   X509/Certificate, Handled and Listed say which lists of extensions are accepted, Framed puts the
--   bytes of a certificate together again, and Resigned and Independent are about the old fields.
-- * src/crypto.c makes a public key from the fields, and verifies signatures with it. Crypto has all
--   of its functions that answer something; Crypto/Ssl is the interface to OpenSSL. Crypto/Memory is
--   about the memory for a key before anything is written to it.
-- * src/read_cert.c joins the two for a file: ReadCert.
-- * src/main.c keeps the trusted keys, and tries them on what a connection sent: Server/Scripts has
--   that loop, with the swap-remove of expired keys, and the framing of src/gen_sig.c, which it takes
--   apart. Server/Start/Origin joins it with read_cert, which supplies the keys;
--   Server/Scripts/Number is about script_n.
-- * Server/Start is main_protected of src/main.c up to its event loop, which loads the keys from a
--   file or the files of a directory.
-- * The event loop of src/main.c keeps a table of connections: Server/Connections has the table,
--   free_conn, the search for the oldest connection and the accepting of a new one; Server/Receive
--   the loop that receives; Server/Events the handling of an event, which runs the loop over the keys
--   on what was received, and the loop around it. Server/Events/Reachable has the states that the
--   server can reach, as a step relation, and Server/Events/Shutdown a way in which a client ends the
--   server. Server/Kernel is the interface to the operating system.
-- * Server/Sessions says what the event loop promises: each event is a turn, in which at most one session
--   is heard and then sessions move, in no order. Its children see the table of connections so, and
--   show that the event loop does nothing else; Server/Sessions/Timed is about the times of the calls of
--   exec_script.
-- * Server/End is free_all of src/main.c, with pub_key_free of src/crypto.c. Server/Connections/Owned
--   counts the descriptors that the table holds and that were closed.
-- * Exec is exec_script of src/exec.c, and GenSig the program of src/gen_sig.c; Output is what both
--   rely on of the system call write.
-- * Remote joins GenSig, the server and Exec: a script on its way from a file to bash.
-- * Common has what they share: 64-bit words, the results of fallible code, and buffers.
-- * Tests runs the code on test/ed25519/cert.der, whose bytes stand in Samples.
--
-- How the code is modelled
--
-- * An index, a size or a length is a native number; add64 and sub64 wrap around as uint64_t does,
--   and a shift to the left is cut to the width of its type.
-- * A code other than the one for success is `err`. A read outside of the buffer, a failed assert and
--   fuel that ran out are `abort`; a property that lets this happen names it. What a function writes
--   through a pointer is part of its result.
-- * Where the event loop returns from main_protected, the error is the state that is left to free_all;
--   the failures of the start are an error without a state.
-- * A loop runs on fuel. parse_name, the extensions and the purposes start with one round more than
--   the end of the list, and every round moves the index forward; the loop over the keys starts with
--   one round more than twice the number of keys, and every round moves the index forward or takes a
--   key out of use. That the fuel is enough is part of the statement that there is no `abort`.
-- * timegm belongs to the C library and is an argument: it gives back the broken-down time as it
--   normalised it, and the timestamp. Nothing is assumed of it.
-- * The answers of the system calls are an argument of the handling of an event. Of recv is assumed
--   that it writes no more than it has room for, of accept that it does not answer the descriptor 0.
--   What the server does outside of its memory, closing a descriptor or executing a script, is kept
--   in a list in its state. The loop that receives starts with fuel for max_script_size rounds.
-- * OpenSSL is an argument. Of it is assumed only that EVP_PKEY_fromdata stores a key where it
--   answers success, which the code asserts; and in Crypto/Memory alone that it makes a key only
--   where there is none at the pointer that it is given. Its functions depend on their arguments
--   alone.
-- * script_n is an int, handed on as a uint32: the model counts its 32 bits, which wrap around. In C the
--   overflow behind 2 ^ 31 - 1 scripts is undefined.
-- * The memory that read_cert writes a key to is an argument, by the index of the key and the number of
--   attempts: nothing is assumed of what an attempt that failed has left there.
-- * The buffer of a certificate is below 2 ^ 63 bytes, because read_cert takes its size from a signed
--   st_size and maps it; the bytes are those that mmap answered.
--
-- What is not modelled
--
-- * Which objects of OpenSSL are alive: free_all answers the handles that it passes to EVP_PKEY_free
--   and EVP_MD_CTX_free.
-- * What exec_script does while the event loop waits for it: the server records its calls, and the
--   function has its own model, in Exec.
-- * Failures of malloc and realloc, which the code does not test.
-- * What the messages say.
pub mod Common
pub mod X509
pub mod Crypto
pub mod ReadCert
pub mod Server
pub mod Samples
pub mod Output
pub mod Exec
pub mod GenSig
pub mod Remote
mod Tests
