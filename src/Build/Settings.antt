-- ===== src/Build/Settings.antt =====
-- libssh2-sys/build.rs: what the C compiler is told, whatever is found on the machine.
use ssh2_rs.Base.{List, [], ◌∷◌}
use ssh2_rs.Base.Text.{bytes}
use ssh2_rs.Build.Raw.{Setting, file, include, define, flag}

-- The files of libssh2 that every target compiles.
unfoldable pub sources : List Setting
sources =
    file (bytes "libssh2/src/agent.c")
    ∷ file (bytes "libssh2/src/bcrypt_pbkdf.c")
    ∷ file (bytes "libssh2/src/blowfish.c")
    ∷ file (bytes "libssh2/src/channel.c")
    ∷ file (bytes "libssh2/src/comp.c")
    ∷ file (bytes "libssh2/src/crypt.c")
    ∷ file (bytes "libssh2/src/global.c")
    ∷ file (bytes "libssh2/src/hostkey.c")
    ∷ file (bytes "libssh2/src/keepalive.c")
    ∷ file (bytes "libssh2/src/kex.c")
    ∷ file (bytes "libssh2/src/knownhost.c")
    ∷ file (bytes "libssh2/src/mac.c")
    ∷ file (bytes "libssh2/src/misc.c")
    ∷ file (bytes "libssh2/src/packet.c")
    ∷ file (bytes "libssh2/src/pem.c")
    ∷ file (bytes "libssh2/src/publickey.c")
    ∷ file (bytes "libssh2/src/scp.c")
    ∷ file (bytes "libssh2/src/session.c")
    ∷ file (bytes "libssh2/src/sftp.c")
    ∷ file (bytes "libssh2/src/transport.c")
    ∷ file (bytes "libssh2/src/userauth.c")
    ∷ []

-- What a Unix target is compiled with.
unfoldable pub unix_settings : List Setting
unix_settings =
    flag (bytes "-fvisibility=hidden")
    ∷ define (bytes "HAVE_SNPRINTF")
    ∷ define (bytes "HAVE_UNISTD_H")
    ∷ define (bytes "HAVE_INTTYPES_H")
    ∷ define (bytes "HAVE_STDLIB_H")
    ∷ define (bytes "HAVE_SYS_SELECT_H")
    ∷ define (bytes "HAVE_SYS_SOCKET_H")
    ∷ define (bytes "HAVE_SYS_IOCTL_H")
    ∷ define (bytes "HAVE_SYS_TIME_H")
    ∷ define (bytes "HAVE_SYS_UN_H")
    ∷ define (bytes "HAVE_O_NONBLOCK")
    ∷ define (bytes "LIBSSH2_OPENSSL")
    ∷ define (bytes "HAVE_LIBCRYPT32")
    ∷ define (bytes "HAVE_EVP_AES_128_CTR")
    ∷ define (bytes "HAVE_POLL")
    ∷ file (bytes "libssh2/src/openssl.c")
    ∷ []

unfoldable pub windows_settings : List Setting
windows_settings =
    include (bytes "libssh2/win32")
    ∷ define (bytes "LIBSSH2_WINCNG")
    ∷ file (bytes "libssh2/src/wincng.c")
    ∷ []
