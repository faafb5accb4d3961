-- ===== src/Lib.antt =====
-- curlev, a C++ library over libcurl and libuv: HTTP and SMTP requests that run in the background.
--
-- A user creates an HTTP or an SMTP object over an ASync. Both derive from Wrapper, which holds the
-- configuration and a state, idle, running or finished. Calls configure an idle object; `start`
-- sets the configuration on libcurl's easy handle and passes the handle to ASync; libcurl reads the
-- request and stores the response through callbacks; ASync starts a failed request again where that
-- is safe, and notifies the wrapper, in its own thread or through a queue; the wrapper invokes the
-- user's callback and is idle again.
--
-- The files, with the code that each is about:
--   StringUtils: src/utils/string_utils.cpp and its header, trimming, numbers, key-value lists.
--   MapUtils: src/utils/map_utils.cpp, the header map, its hash and the URL encoding.
--   Libcurl: what the code calls of libcurl. An easy handle is the log of the options set on it,
--     newest first; whether libcurl takes a setting, a list element or a MIME call is a parameter.
--   CurlUtils: src/utils/curl_utils.cpp, settings one after another, lists and checked headers.
--   Options, Authentication, Certificates: the files of src of these names, `set` and `apply`.
--   Mime: src/mime.cpp, as the log of the calls that build a document.
--   SmtpAddress: smtp::address of src/smtp.cpp.
--   Transfer: WrapperBase of include/wrapper.hpp, and curl_cb_read, curl_cb_seek, curl_cb_write and
--     curl_cb_header of src/async.cpp.
--   Defaults: the defaults that ASync keeps.
--   Wrapper: include/wrapper.hpp, generic in the protocol, which is a record of its three virtual
--     functions. ProtocolLaws says what a protocol may change; Http.Laws and Smtp.Laws fill it.
--     Wrapper.Promise is `launch`, whose callback fulfils a promise; Http.Launch is about HTTP's.
--   Building, Http, Smtp: src/http.cpp and src/smtp.cpp. History runs any sequence of calls.
--   Async: the requests of src/async.cpp. Pool is what it asks of the wrappers, and Async.Wrappers
--     fills it. Async.Events are the steps, and Async.Once the states that they reach;
--     Async.RunMutex is the order in which threads take m_uv_run_mutex,
--     Async.CallbackThread the thread that notifies, Async.Stop a forced `stop`, Async.ShareLocks
--     the locks of what the handles share, Async.Global the count of initializations of libcurl.
--   System: ASync together with the wrappers: System.Invariant is what they agree upon after every
--     event, System.Quiet and System.Stop the states that they reach, for any protocol whose calls
--     keep CallLaws. System.Objects is about HTTP and SMTP objects, with all their calls;
--     System.Handles about the handle of an object over its whole life; System.Refused about a
--     libcurl that refuses the header lists.
--   EventLoop: multi_cb_socket, multi_cb_timer, uv_io_cb, uv_timeout_cb and the contexts of sockets
--     in src/async.cpp. EventLoop.Turns compares them with what libcurl asked for.
--   Instance: ASync::start and ASync::stop, and what they take of libcurl, libuv and the system.
--   Json: src/http_json.cpp, over the two JSON libraries as parameters.
--   Tests: the theorems at concrete inputs.
--
-- Numbers: `size_t` and `unsigned long` have 64 bits, `unsigned` has 32; where the code can wrap
-- round, the definitions write the remainder out. Texts are lists of byte codes. Loops are
-- recursion over lists or over the number of attempts; the loop of the callback thread is on fuel,
-- of which the length of its queue is enough.
--
-- What a mutex guards is one step, and the user's callbacks are numbers, with a parameter that says
-- which of them throw. The C locale is assumed for the tests of characters.
--
-- A call of start_request is one step, though the code counts the request before it takes the lock;
-- and so is a notification, though the code counts it until the user's callback has returned.
-- Async.CallbackThread.Arrivals lets others queue notifications meanwhile. In System.Objects,
-- what curl_easy_getinfo tells HTTP of a response is one parameter for all transfers.
--
-- Not modelled: an ASync that runs HTTP and SMTP objects together; what libcurl calls from
-- curl_multi_remove_handle, other than as a request of its own; how long the threads sleep between
-- their turns, and re-entrant calls from a user's callback; the shared pointers that keep a wrapper
-- alive; asserts; tests.
pub mod Prelude
pub mod StringUtils
pub mod MapUtils
pub mod CurlUtils
pub mod Libcurl
pub mod Mime
pub mod SmtpAddress
pub mod Options
pub mod Authentication
pub mod Certificates
pub mod Transfer
pub mod Defaults
pub mod Wrapper
pub mod Building
pub mod Http
pub mod Smtp
pub mod Async
pub mod System
pub mod EventLoop
pub mod Instance
pub mod Json
pub mod Tests
