-- ===== src/Lib.antt =====
-- A model of openDias, a document archive with a web front end, and theorems about it.
--
-- A request passes these parts. The web handler (src/web_handler.c) collects post data, finds the
-- session of the visitor and its privileges, and calls the handler of the action. The validation
-- (src/validation.c) decides which post data an action takes. The handlers (src/pageRender.c,
-- src/doc_editor.c) answer with a page or an XML or JSON text made from the rows of the database,
-- which they and src/dbaccess.c ask through src/db.c. The sessions (src/sessionmanagement.c) are
-- kept in a linked list (src/simpleLinkedList.c), as are the post data, the variables of a
-- statement and its rows.
--
-- Base: shared names, `Exec` for C code that may fault (a read through NULL or out of bounds),
--   C strings as lists of bytes without the NUL, and `atoi` with its 32 bit wrap.
-- LinkedList: src/simpleLinkedList.c through the elements that a list holds, first to last; Sort is
--   `sll_sort`, Occurrences how often a key is in a list.
-- Validation: src/validation.c. Fields has the checks of single fields, Keys `checkKeys`, Blocks
--   the part of `validate` for each action, Actions `basicValidation` and `validate`. The switches
--   of the build (CAN_SCAN, CAN_OCR, CAN_PDF, CAN_PHASH, OPEN_TO_ALL) and `isOCRLanguageAvailable`
--   are a record, `Build`.
-- Session: src/sessionmanagement.c. The state is `Manager`, the globals of that file; Table is the
--   table of sessions that the list stands for, Reach the states that calls reach.
-- WebHandler: src/web_handler.c. Site is what it uses of the rest: the build, the texts, the files.
--   Connection is `answer_to_connection`, in its first call for a request (`first_call`) and its
--   last one (`last_call`), and `request_completed`; the state is `Server`, the sessions and
--   `nr_of_clients`. Upload is `iterate_post`, Language `userLanguage`, Role `accessChecks`, Files
--   and Get the files that are served to a GET. Post is the branch for the action of a POST: it
--   gives a `Page`, whose content is a text or comes from a `Call` of a handler. Response is
--   `send_page`.
-- Database: src/db.c. sqlite is an argument, `Sqlite`: the rows and the error with which it answers
--   are a function of all the statements that it was given, each with its values. Run has
--   `runquery_db` and `runUpdate_db`, and programs of such calls; Binding the variables as callers
--   put them in a list; Queries the results of calls; Effects the predicate `Only` on the statements
--   that a program gives; Upgrade is `connect_db`, with the files of the machine as an argument.
-- DbAccess: src/dbaccess.c, its child Tags the statements on tags.
-- DocEditor: src/doc_editor.c; Detail and Parts are `getDocDetail`.
-- PageRender: src/pageRender.c. Services is what it uses of the rest (texts, MD5, the time as a
--   text); Login is `checkLogin` and `doLogout`, Users the handlers of users, DocFilter the statement
--   of `docFilter` and its results, Completion, Scans and Similar the completions, the handlers
--   of a scan and `checkForSimilar`, Entries the texts of single rows.
-- Handlers: the calls that WebHandler.Post makes, answered by these handlers.
-- Daemon: the settings of src/main.c, and the services that a run starts and stops, with the ends of
--   `setup` and of `createDir_ifRequired` (src/utils.c) in it; what the run meets is an `Environment`.
--   What `daemonize` does before, with its ends, is not in it.
-- Utils: `dateHuman`, `replace` and `itoa` of src/utils.c.
-- Localisation: src/localisation.c, with the lines of a resource file as an argument. The site's
--   texts in WebHandler are a function, and not this state.
--
-- Most loops of the code go along a list or a string and are structural recursion. `replace` and
-- `ritoa` run on rounds: as many as the string has bytes, and one more than the number; both are shown
-- to be enough (Utils.Replace, Utils.Itoa). `sll_sort` has one round more than there are pairs out of
-- order (LinkedList.Sort.Laws). The upgrade runs once for each version that is missing.
-- `time`, `uuid_generate`, MD5, "%d" of `printf`, the cookies and headers that libmicrohttpd looks up
-- and the rows of `access_role` are arguments.
-- Not modelled: log output, memory that is freed, the failure of malloc; the two pointers of an
-- element of a list; the lock of the database that other processes share; src/import_doc.c
-- and the parts of the program that mostly call libraries (scanning, OCR, PDF, images).
pub mod Base
pub mod Daemon
pub mod Database
pub mod DbAccess
pub mod DocEditor
pub mod Handlers
pub mod LinkedList
pub mod Localisation
pub mod PageRender
pub mod Session
pub mod Utils
pub mod Validation
pub mod WebHandler
