-- ===== src/Lib.antt =====
-- Verification of the web front end of EmailJaChai: the server side of frontend/, which stands between
-- the browser and the backend, and the state that the browser keeps.
--
-- The parts and how they interact. A browser asks for pages and for data. frontend/proxy.ts decides
-- which page it gets; the routes under frontend/app/next-api open, change and end its session, which is
-- a set of cookies, and pass its requests on to the backend under the key in those cookies. Most of
-- these requests carry the address of the caller, which frontend/lib/client-ip.ts reads from the headers. In
-- the browser one realtime connection (frontend/hooks/use-socket.ts), opened with a token from the
-- session, brings messages that change the stores of frontend/stores.
--
-- The files.
-- - Common: names of the libraries passed on, Boolean tests, lists measured by native numbers, the text
--   functions of JavaScript that the source calls, and lists in which each key stands once.
-- - Http/Headers: the Headers of the Fetch API.
-- - ClientIp (frontend/lib/client-ip.ts): get_client_ip, apply_client_ip_headers and the tests and
--   parsers under them, one function for each of the source; proofs in Select, Port and Blocks.
-- - Session (frontend/lib/auth.ts): cookies with their moment of expiry, authorize_user, verify_user.
--   Routes models frontend/app/next-api/auth/login, logout and impersonate; Sockets models ws-token;
--   Gates models me, register and the request of jobs/submit-file. A route is a plan, which refuses or
--   sends a request, and a completion from the backend's answer. Proofs are in Reading, Login,
--   Impersonation, Return, Sockets and Private. The signing library is the record Jwt, with the laws
--   that it documents; Token gives an instance that meets them.
-- - Proxy (frontend/app/next-api/proxy): plan is proxyRequest up to fetch, Reply the rest of it; proofs
--   in Access and Passing.
-- - Guard (frontend/proxy.ts).
-- - Socket (frontend/hooks/use-socket.ts): the refs of the hook as a record, its functions, and a step
--   relation of what the browser, the server and React do; proofs in Life, Retry and Backoff.
-- - Realtime: on_message models what a frame does, from onmessage of frontend/hooks/use-socket.ts
--   through the listeners of the hooks (listen) to the stores; LogFields reads a log message, Chart is
--   the state of frontend/app/admin/monitoring/page.tsx. Proofs in Laws, Order and Balance.
-- - Amount (frontend/lib/helper/index.ts): format_number, and parse_credits, which reads it back; proofs
--   in Digits.
-- - Verify (frontend/features/single-verify and bulk-upload, each components/form.tsx): Single and Upload
--   split their handlers at the request; proofs in Laws and Files.
-- - Captcha (frontend/components/home/home-email-verifier.tsx): the form of the home page, with Errors
--   for frontend/lib/turnstile.ts; proofs in Laws, and in Flights over a step relation.
-- - LogViewer (frontend/app/admin/logs/logs-client.tsx): the viewer with its requests on their way and
--   the renderings whose functions they use; proofs in Laws.
-- - Pages: JobList (frontend/features/jobs/components/jobs-client.tsx and the page of one job under
--   frontend/app/(dashboard)/dashboard/jobs), Servers with Servers/Commands, JobControl with
--   JobControl/Saving, and UserList (the pages server, job-control and users of frontend/app/admin);
--   proofs in JobList/Laws, Servers/Laws, JobControl/Laws and beside the definitions.
-- - Seo (frontend/lib/seo.ts and site-url.ts, frontend/app/robots.txt): the address of the site and
--   robots.txt; proofs in Robots.
-- - Logger (frontend/lib/logger.ts): the loop that redacts an object; proofs in Clean.
-- - Stores (frontend/stores, with the hooks use-credits and use-dashboard-web-socket and the controls of
--   the security panel): one module for each store, an action of the store as a function on its state,
--   a request as two functions, one up to the request and one from its reply (Stores/Reply) on. Reset
--   models resetAllStores on the nine stores it names; Jobs/Refinement has the map that the job table
--   stands for.
--
-- Bounds. Every loop of the source is over a list or a text. Fuel stands only in the two functions that
-- write a number n in digits (show_num, format_number): n + 1 rounds, enough since each round divides
-- by ten or by a thousand. A text is read as a number only if it consists of digits. Times are arguments:
-- seconds for cookies and tokens, milliseconds in the stores and in the id of a request, and a delay in
-- milliseconds in Socket. Amounts are natural numbers; a subtraction that the source cuts off at zero is
-- the subtraction of the natural numbers.
--
-- Not modelled: the backend and the worker, which the routes call and which are arguments here; the
-- rendering of pages and the pages that are not named above; console output, toasts and error reports;
-- prices, which are rounded floating point numbers; the rest of frontend/lib; the route
-- auth/profile/update.
pub mod Common
pub mod Http
pub mod ClientIp
pub mod Session
pub mod Proxy
pub mod Guard
pub mod Stores
pub mod Socket
pub mod Logger
pub mod Amount
pub mod Realtime
pub mod Verify
pub mod Captcha
pub mod LogViewer
pub mod Pages
pub mod Seo
